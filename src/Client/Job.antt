-- ===== src/Client/Job.antt =====
-- `WaitForJob` of client.go over the jobs of util/jobs.go. Logging and the pause between two polls
-- are left out.
--
-- The loop ends when the device says so, and so it runs over the list of the responses: each is what
-- `Op` returned, with the job that was read from it. Past the end of the list the client still waits.
pub mod Laws
use pango.Base.{
  ℕ, String, List, [], ◌∷◌, Bool, true, false, Option, none, some, Error, errorf, int, ℤ, pos,
  nat_eq, not, ◌&&◌, ◌==◌, if◌then◌else◌, is_empty,
}
use pango.Base.Strings.{join}
use pango.Util.Packaging.{trim_space}

-- `LineOrCdata`
pub record LineOrCdata : Type 0 where
  pub cdata : Option String
  pub text : Option String

abbrev line_text : Option String → Option String → String
line_text (some cdata) text = trim_space cdata
line_text none (some text) = text
line_text none none = "huh"

abbrev line_texts : List LineOrCdata → List String
line_texts [] = []
line_texts (line ∷ lines) = line_text line.cdata line.text ∷ line_texts lines

-- `BasicJobDetails.String`
unfoldable pub details : List LineOrCdata → String
unfolding join trim_space
details lines = join " | " (line_texts lines)

-- `devJob`
pub record DevJob : Type 0 where
  pub serial : String
  pub result : String

-- `BasicJob`, with the lines of its details.
pub record BasicJob : Type 0 where
  pub result : String
  pub progress : ℕ
  pub lines : List LineOrCdata
  pub devices : List DevJob

-- The loop over the devices, which ends at the first that is pending: `all_done`, and `all_ok` as
-- it was or as it is now.
unfoldable pub check_devices : Bool → List DevJob → Bool × Bool
check_devices all_ok [] = (true, all_ok)
check_devices all_ok (d ∷ ds) =
    let all_ok' = all_ok && d.result == "OK" in
    let rest = check_devices all_ok' ds in if d.result == "PEND" then (false, all_ok) else rest

-- What follows the loop, up to the last unmarshalling; `fmt.Errorf` takes the device's text for a
-- format.
unfoldable pub job_error : ℕ → Bool → BasicJob → Option Error
unfolding details
job_error id all_ok ans =
    if ans.result == "FAIL"
    then (if is_empty ans.lines
        then some (errorf "Job %d has failed to complete successfully" (int (pos id) ∷ []))
        else some (errorf (details ans.lines) []))
    else if not all_ok
    then some (errorf "Commit failed on one or more devices" [])
    else none

-- One response: an error of `Op`, or its bytes with the job.
pub data Poll : Type 0 where
  poll_error : Error → Poll
  polled : String → BasicJob → Poll

-- How the loop ends: an error of `Op`, or the last response with `all_ok`.
pub data Ended : Type 0 where
  op_error : Error → Ended
  finished : String → BasicJob → Bool → Ended

unfoldable pub poll_loop : Bool → List Poll → Option Ended
unfolding check_devices
poll_loop all_ok [] = none
poll_loop all_ok (poll_error e ∷ polls) = some (op_error e)
poll_loop all_ok (polled body ans ∷ polls) =
    let (all_done, all_ok') = check_devices all_ok ans.devices in
    let rest = poll_loop all_ok' polls in
    if nat_eq ans.progress 100 && all_done then some (finished body ans all_ok') else rest

-- What the end of the loop gives: the error, if any, and otherwise `resp` filled by `unmarshal`,
-- which stands for `xml.Unmarshal`, if there is a `resp`.
unfoldable pub conclude :
    {Resp : Type 0}
    → (String → Resp → Option Error × Resp)
    → ℕ
    → Option Resp
    → Ended
    → Option Error × Option Resp
unfolding job_error
conclude unmarshal id resp (op_error e) = (some e, resp)
conclude unmarshal id resp (finished body ans all_ok) = elim (job_error id all_ok ans) [
  | some e ↦ (some e, resp)
  | none ↦ elim resp [
    | none ↦ (none, none)
    | some r ↦ let (err, r') = unmarshal body r in (err, some r')
  ]
]

-- `WaitForJob`; `none` while it waits.
unfoldable pub wait_for_job :
    {Resp : Type 0}
    → (String → Resp → Option Error × Resp)
    → ℕ
    → Option Resp
    → List Poll
    → Option (Option Error × Option Resp)
unfolding poll_loop conclude
wait_for_job unmarshal id resp polls = elim (poll_loop true polls) [
  | none ↦ none
  | some ended ↦ some (conclude unmarshal id resp ended)
]
