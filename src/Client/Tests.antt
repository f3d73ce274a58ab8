-- ===== src/Client/Tests.antt =====
-- The client's theorems at concrete inputs.
use pango.Base.{
  ℕ, suc, String, List, [], ◌∷◌, Option, none, some, Error, panos_error, pos, ◌≡◌, refl, ◌↔◌,
}
use pango.Util.Move.{move_before, valid_movement}
use pango.Namespace.Group.{move_group, find_indexes}
use pango.Namespace.Group.Model.{device, namespace, pather, lister}
use pango.Client.Position.{position_first_entity}
use pango.Client.Position.Laws.{position_first_entity-move_group, position_first_entity_of_invalid}
use pango.Client.Job.{
  BasicJob, Poll, polled, wait_for_job, check_devices, poll_loop, conclude, job_error,
}
use pango.Client.Job.Laws.{Any, Worked, wait_for_job_ends_iff, wait_for_job-Worked}
use pango.Client.Response.{Status, Decoders, end_communication}
use pango.Client.Response.Laws.{
  IsAnswered, IsSuccess, IsNotFound, end_communication_ok_iff, end_communication-IsNotFound_iff,
}
use pango.Namespace.Client.{XapiClient}
use pango.Client.Import.{Vis}

abbrev profiles : List String
profiles = "p1" ∷ "p2" ∷ "p3" ∷ []

position_first_entity-move_group_example :
    move_group namespace pather lister move_before "p1" ("p3" ∷ []) profiles
    ≡ some (position_first_entity device move_before "p1" "p3" (pather "p3") profiles profiles)
unfolding valid_movement find_indexes
position_first_entity-move_group_example =
    position_first_entity-move_group namespace pather lister profiles profiles refl move_before "p1"
      "p3" refl refl refl refl (2, 0, refl)

position_first_entity_of_invalid_example :
    position_first_entity device (pos 7) "p1" "p3" (pather "p3") profiles profiles
    ≡ (none, profiles)
unfolding valid_movement find_indexes
position_first_entity_of_invalid_example =
    position_first_entity_of_invalid device (pos 7) "p1" "p3" (pather "p3") profiles profiles refl
      refl refl (2, 0, refl)

abbrev job : ℕ → String → BasicJob
job progress result = record {
  result = "OK";
  progress = progress;
  lines = [];
  devices = record { serial = "0001"; result = result } ∷ [];
}

abbrev polls : List Poll
polls = polled "a" (job 40 "PEND") ∷ polled "b" (job 100 "PEND") ∷ polled "c" (job 100 "OK") ∷ []

abbrev keep : String → String → Option Error × String
keep body resp = (none, body)

job_run : wait_for_job keep 5 (some "") polls ≡ some (none, some "c")
unfolding wait_for_job poll_loop check_devices conclude job_error
job_run = refl

wait_for_job_ends_iff_example :
    ((r : Option Error × Option String) × (wait_for_job keep 5 (some "") polls ≡ some r))
    ↔ Any polls
wait_for_job_ends_iff_example = wait_for_job_ends_iff keep 5 (some "") polls

wait_for_job-Worked_example : Worked polls
wait_for_job-Worked_example = wait_for_job-Worked keep 5 (some "") polls (some "c") job_run

abbrev missing_object : Status
missing_object = record { response_status = "error"; response_code = pos 7 }

abbrev decoders : Decoders String
decoders = record {
  without_line =
      λ body. (record { status = missing_object; response_msg1 = ""; response_msg2 = "no" }, none);
  with_line = λ body. (record { status = missing_object; response_msg = "" }, none);
  answer = λ body ans. (none, body);
}

-- A response that says by its code alone that an object is missing.
abbrev missing_decoders : Decoders String
missing_decoders = record decoders {
  without_line =
      λ body. (record { status = missing_object; response_msg1 = ""; response_msg2 = "" }, none);
}

end_communication-IsNotFound_iff_example :
    IsNotFound (end_communication missing_decoders "<response/>" none).0
    ↔ (missing_object.response_code ≡ pos 7)
end_communication-IsNotFound_iff_example =
    end_communication-IsNotFound_iff missing_decoders "<response/>" none refl refl

end_communication_ok_iff_example :
    ((end_communication decoders "<response/>" none).0 ≡ none)
    ↔ (IsSuccess missing_object × IsAnswered decoders "<response/>" none)
end_communication_ok_iff_example = end_communication_ok_iff decoders "<response/>" none

-- A client that refuses each call with its error.
abbrev refusing : Error → XapiClient ℕ Vis
refusing e = record {
  get = λ path s. (("", some e), suc s);
  show = λ path s. (("", some e), suc s);
  set = λ path element s. (some e, suc s);
  edit = λ path object s. (some e, suc s);
  delete = λ path s. (some e, suc s);
  move = λ path where_ dst s. (some e, suc s);
}

abbrev denied : Error
denied = panos_error "denied" (pos 15)
