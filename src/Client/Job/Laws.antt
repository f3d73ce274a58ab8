-- ===== src/Client/Job/Laws.antt =====
-- When `WaitForJob` returns, and what it takes for no error to be returned.
use pango.Base.{
  ℕ, String, List, [], ◌∷◌, ◌++◌, Bool, true, false, Option, none, some, Error, ◌≡◌, refl, sym, ap,
  subst, ◌↔◌, ◌⊎◌, inl, inr, nat_eq, nat_eq_iff, ◌&&◌, ◌==◌, All, arith, Bool-cases, Option-cases,
}
use pango.Client.Job.{
  DevJob, BasicJob, Poll, poll_error, polled, Ended, op_error, finished, check_devices, poll_loop,
  conclude, job_error, wait_for_job,
}

-- A response that ends the wait: an error, or a job at 100 percent with no device pending.
abbrev pub Ends : Poll → Type 0
Ends (poll_error e) = Unit
Ends (polled body ans) = (ans.progress ≡ 100) × All (λ d. (d.result == "PEND") ≡ false) ans.devices

abbrev pub Any : List Poll → Type 0
Any [] = ⊥
Any (p ∷ ps) = Ends p ⊎ Any ps

no_pending_iff :
    (all_ok : Bool) (ds : List DevJob)
    → ((check_devices all_ok ds).0 ≡ true) ↔ All (λ d. (d.result == "PEND") ≡ false) ds
unfolding check_devices
no_pending_iff all_ok [] = ground arith
no_pending_iff all_ok (d ∷ ds) = ground (arith, no_pending_iff (all_ok && d.result == "OK") ds)

-- At the end of a round with no device pending, every device was fine, and so was every device seen
-- in the rounds before.
fine_devices_iff :
    (all_ok : Bool) (ds : List DevJob)
    → All (λ d. (d.result == "PEND") ≡ false) ds
    → ((check_devices all_ok ds).1 ≡ true)
      ↔ ((all_ok ≡ true) × All (λ d. (d.result == "OK") ≡ true) ds)
unfolding check_devices
fine_devices_iff all_ok [] h = ground arith
fine_devices_iff all_ok (d ∷ ds) h =
    ground (arith, fine_devices_iff (all_ok && d.result == "OK") ds h.1)

loop_of_Any :
    (all_ok : Bool) (polls : List Poll)
    → Any polls
    → (ended : Ended) × (poll_loop all_ok polls ≡ some ended)
unfolding poll_loop
loop_of_Any all_ok [] h = absurd h
loop_of_Any all_ok (poll_error e ∷ polls) h = (op_error e, refl)
loop_of_Any all_ok (polled body ans ∷ polls) h =
    elim (Bool-cases (nat_eq ans.progress 100 && (check_devices all_ok ans.devices).0)) [
      | inl end ↦ (finished body ans (check_devices all_ok ans.devices).1, rw end refl)
      | inr goes_on ↦
          let later : Any polls = elim h [
            | inl now ↦ absurd (
                ground (
                  arith,
                  goes_on,
                  now,
                  no_pending_iff all_ok ans.devices,
                  nat_eq_iff ans.progress 100,
                ))
            | inr later ↦ later
          ] in
          let (ended, e) = loop_of_Any (check_devices all_ok ans.devices).1 polls later in
          (ended, rw goes_on e)
    ]

-- How the loop came to its end, if it did.
abbrev End : List Poll → Option Ended → Type 0
End polls none = Unit
End polls (some (op_error e)) = Any polls
End polls (some (finished body ans ok)) =
    (earlier : List Poll) × (later : List Poll) × (polls ≡ earlier ++ polled body ans ∷ later)
    × Ends (polled body ans)
    × (ok ≡ true → All (λ d. (d.result == "OK") ≡ true) ans.devices)

End-cons :
    (p : Poll) (polls : List Poll) (ended : Option Ended) → End polls ended → End (p ∷ polls) ended
End-cons p polls none h = tt
End-cons p polls (some (op_error e)) h = inr h
End-cons p polls (some (finished body ans ok)) (earlier, later, e, ends, fine) =
    (p ∷ earlier, later, ap (λ l. p ∷ l) e, ends, fine)

poll_loop-End : (all_ok : Bool) (polls : List Poll) → End polls (poll_loop all_ok polls)
unfolding poll_loop
poll_loop-End all_ok [] = tt
poll_loop-End all_ok (poll_error err ∷ polls) = inl tt
poll_loop-End all_ok (polled body ans ∷ polls) =
    elim (Bool-cases (nat_eq ans.progress 100 && (check_devices all_ok ans.devices).0)) [
      | inl end ↦
          let ends : Ends (polled body ans) =
            ground (arith, no_pending_iff all_ok ans.devices, nat_eq_iff ans.progress 100) in
          rw end
            ([], polls, refl, ends, λ ok. ((fine_devices_iff all_ok ans.devices ends.1).0 ok).1)
      | inr goes_on ↦ rw goes_on (
          End-cons (polled body ans) polls _
            (poll_loop-End (check_devices all_ok ans.devices).1 polls))
    ]

-- A job that worked: its last response is at 100 percent, its result is not a failure, and each of
-- its devices says that it is fine.
abbrev pub Worked : List Poll → Type 0
Worked polls =
    (earlier : List Poll) × (later : List Poll) × (body : String) × (ans : BasicJob) × (polls
      ≡ earlier ++ polled body ans ∷ later)
    × (ans.progress ≡ 100)
    × ((ans.result == "FAIL") ≡ false)
    × All (λ d. (d.result == "OK") ≡ true) ans.devices

no_job_error :
    (id : ℕ) (all_ok : Bool) (ans : BasicJob)
    → job_error id all_ok ans ≡ none
    → ((ans.result == "FAIL") ≡ false) × (all_ok ≡ true)
unfolding job_error
no_job_error id all_ok ans e = ground arith

Any-append : (earlier later : List Poll) (p : Poll) → Ends p → Any (earlier ++ p ∷ later)
Any-append [] later p h = inl h
Any-append (q ∷ earlier) later p h = inr (Any-append earlier later p h)

End-Any : (polls : List Poll) (ended : Ended) → End polls (some ended) → Any polls
End-Any polls (op_error e) h = h
End-Any polls (finished body ans ok) (earlier, later, whole, ends, fine) =
    subst Any (sym whole) (Any-append earlier later (polled body ans) ends)

module _ {Resp : Type 0} (unmarshal : String → Resp → Option Error × Resp) (id : ℕ)
    (resp : Option Resp) where
  result_ends :
      (polls : List Poll) (ended : Option Ended) (r : Option Error × Option Resp)
      → End polls ended
      → elim ended as (λ _. Option (Option Error × Option Resp)) [
        | none ↦ none
        | some x ↦ some (conclude unmarshal id resp x)
      ]
        ≡ some r
      → Any polls
  result_ends polls none r h e = absurd (ground (arith, e))
  result_ends polls (some ended) r h e = End-Any polls ended h

  -- The wait ends exactly if some response is an error, or a job at 100 percent with no device
  -- pending.
  pub wait_for_job_ends_iff :
      (polls : List Poll)
      → ((r : Option Error × Option Resp) × (wait_for_job unmarshal id resp polls ≡ some r))
        ↔ Any polls
  unfolding wait_for_job
  wait_for_job_ends_iff polls = (
    λ (r, e). result_ends polls (poll_loop true polls) r (poll_loop-End true polls) e,
    λ h.
        let (ended, e) = loop_of_Any true polls h in
        (conclude unmarshal id resp ended, ground (arith, e)),
  )

  conclude_ok :
      (polls : List Poll) (ended : Option Ended) (resp' : Option Resp)
      → End polls ended
      → elim ended as (λ _. Option (Option Error × Option Resp)) [
        | none ↦ none
        | some x ↦ some (conclude unmarshal id resp x)
      ]
        ≡ some (none, resp')
      → Worked polls
  unfolding conclude
  conclude_ok polls none resp' h e = absurd (ground (arith, e))
  conclude_ok polls (some (op_error x)) resp' h e = absurd (ground (arith, e))
  conclude_ok polls (some (finished body ans ok)) resp' (earlier, later, whole, ends, fine) e =
      elim (Option-cases (job_error id ok ans)) [
        | inl no_error ↦
            let (not_failed, all_fine) = no_job_error id ok ans no_error in
            (earlier, later, body, ans, whole, ends.0, not_failed, fine all_fine)
        | inr (err, er) ↦ absurd (ground (arith, e, er))
      ]

  -- Where the wait ends and no error is returned, some response was at 100 percent, its result was
  -- no failure, and each of its devices said that it was fine.
  pub wait_for_job-Worked :
      (polls : List Poll) (resp' : Option Resp)
      → wait_for_job unmarshal id resp polls ≡ some (none, resp')
      → Worked polls
  unfolding wait_for_job
  wait_for_job-Worked polls resp' e =
      conclude_ok polls (poll_loop true polls) resp' (poll_loop-End true polls) e
