-- ===== src/Userid/IpTags.antt =====
-- userid/iptags.go: the registered addresses and their tags, read in pages.
--
-- `op` is `Op` of the client, for the requests of this package. The loop ends where the device says so; it
-- runs on fuel, a unit for each request.
pub mod Paging
use pango.Base.{
  ℕ, zero, suc, ◌+◌, String, List, [], ◌∷◌, Bool, true, false, Option, none, some, Error, errorf,
  str, pos, length, ltb, ◌==◌, if◌then◌else◌,
}
use pango.Version.{Number, gte}
use pango.Userid.{put_all, vsys_or_default}

-- The struct of the request, by version.
pub data Style : Type 0 where
  req_v1 req_v2 req_v3 : Style

-- A request with its filter. `tag` is the name of the tag of the filter, if there is one; `limit` and
-- `start` are of `req_v3` alone.
pub record Request : Type 0 where
  pub style : Style
  pub tag : Option String
  pub ip : String
  pub limit : ℕ
  pub start : ℕ

pub record RespEntry : Type 0 where
  pub ip : String
  pub tags : List String

-- `regResp`, with the name of the file of its message, if there is a message.
pub record RegResp : Type 0 where
  pub entries : List RespEntry
  pub outfile : Option String

abbrev pub new_request : Style → Request
new_request style = record { style = style; tag = none; ip = ""; limit = 0; start = 0 }

unfoldable pub versioning : Number → Request
unfolding gte
versioning v =
    if gte v (record { major = pos 8; minor = pos 0; patch = pos 0; suffix = "" })
    then new_request req_v3
    else if gte v (record { major = pos 6; minor = pos 1; patch = pos 0; suffix = "" })
    then new_request req_v2
    else new_request req_v1

abbrev paged : Style → ℕ → Request → Request
paged req_v3 size o = record o { limit = 500; start = size + 1 }
paged _ size o = o

-- `FilterOn` of the three structs
unfoldable pub filter_on : String → String → ℕ → Request → Request
filter_on ip tag size o =
    paged o.style size (record o { ip = ip; tag = if tag == "" then o.tag else some tag })

abbrev stops : Style → ℕ → ℕ → Bool
stops req_v3 last_count limit = ltb last_count limit
stops _ last_count limit = true

-- `ShouldStop` of the three structs
unfoldable pub should_stop : ℕ → Request → Bool
should_stop last_count o = stops o.style last_count o.limit

-- The error of the call, or of a response that names a file.
abbrev pub response_error : Option Error → Option String → Option Error
response_error (some e) outfile = some e
response_error none none = none
response_error none (some file) =
    if file == ""
    then none
    else some (
        errorf "PAN-OS returned %q instead of IP/tag mappings, please upgrade to 8.0+"
          (str file ∷ []))

abbrev pub Tags : Type 0
Tags = List (String × List String)

-- The part of the loop after the call: `rest` is its next round.
unfoldable pub take_page :
    {S : Type 0}
    → Request
    → Tags
    → (Option Error × RegResp) × S
    → (Tags → S → Option ((Option Error × Option Tags) × S))
    → Option ((Option Error × Option Tags) × S)
unfolding should_stop put_all
take_page req ans ((err, resp), s') rest =
    let ans' = put_all (λ e. e.ip) (λ e. e.tags) resp.entries ans in
    elim (response_error err resp.outfile) [
      | some e ↦ some ((some e, none), s')
      | none ↦
          if should_stop (length resp.entries) req
          then some ((none, some ans'), s')
          else rest ans' s'
    ]

module _ {S : Type 0} (op : Request → String → S → (Option Error × RegResp) × S) where
  -- The loop of `GetIpTags`.
  unfoldable pub read_pages :
      ℕ → String → String → String → Request → Tags → S → Option ((Option Error × Option Tags) × S)
  unfolding filter_on take_page
  read_pages zero ip tag vsys req ans s = none
  read_pages (suc fuel) ip tag vsys req ans s =
      let req' = filter_on ip tag (length ans) req in
      take_page req' ans (op req' vsys s) (λ ans' s'. read_pages fuel ip tag vsys req' ans' s')

  -- `GetIpTags`
  unfoldable pub get_ip_tags :
      ℕ → Number → String → String → String → S → Option ((Option Error × Option Tags) × S)
  unfolding read_pages versioning
  get_ip_tags fuel version ip tag vsys s =
      read_pages fuel ip tag (vsys_or_default vsys) (versioning version) [] s
