-- ===== src/Commit/Tests.antt =====
-- A commit of a Panorama, forced and of two device groups.
use pango.Base.{[], ◌∷◌, true, false, none, some, ◌≡◌}
use pango.Commit.{PanoramaCommit, panorama_element}
use pango.Commit.RoundTrip.{said, meant, said-panorama_element}

abbrev forced : PanoramaCommit
forced = record {
  description = "nightly";
  admins = none;
  device_groups = some ("dg1" ∷ "dg2" ∷ []);
  templates = none;
  template_stacks = none;
  wildfire_appliances = none;
  wildfire_clusters = none;
  log_collectors = none;
  log_collector_groups = none;
  exclude_device_and_network = true;
  exclude_shared_objects = false;
  force = true;
}

said-panorama_element_example : said (panorama_element forced) ≡ ("nightly", true, meant forced)
said-panorama_element_example = said-panorama_element forced
