-- ===== src/Userid/UserTags/Paging.antt =====
-- `GetUserTags` reads all pages of the device.
use pango.Base.{
  ℕ, zero, suc, ◌+◌, ◌-◌, ◌*◌, ◌<◌, String, List, [], ◌++◌, Option, none, some, Error, length,
  length-append, take, drop, ltb, ◌≡◌, refl, sym, ap, ◌∙◌, arith, if◌then◌else◌, Bool-cases, inl,
  inr,
}
use mathlib.Core.List.{append_assoc}
use pango.Userid.{put_all, vsys_or_default}
use pango.Userid.Filled.{take-drop, drop-append, length-drop, last_page, full_page, put_all-append}
use pango.Userid.UserTags.{
  Request, Entry, Tags, tags_of, new_request, filter_on, should_stop, take_page, read_pages,
  get_user_tags,
}

-- The request for the page from `start` on.
abbrev pub asking : ℕ → Request
asking start = record { all = some (record { limit = 500; start = start }); user = "" }

abbrev user_of : Entry → String
user_of e = e.user

-- A device that answers the requests for pages of the entries, which stay.
abbrev pub Serves :
    {S : Type 0}
    → (Request → String → S → (Option Error × List Entry) × S)
    → String
    → List Entry
    → Type 0
Serves {S} op vsys all =
    (start : ℕ) (s : S) → op (asking start) vsys s ≡ ((none, take 500 (drop (start - 1) all)), s)

abbrev Asks : Request → Type 0
Asks req = (n : ℕ) → filter_on "" n req ≡ asking (n + 1)

new-Asks : Asks new_request
unfolding filter_on
new-Asks n = refl

asking-Asks : (start : ℕ) → Asks (asking start)
unfolding filter_on
asking-Asks start n = refl

module _ {S : Type 0} (op : Request → String → S → (Option Error × List Entry) × S) (vsys : String)
    (all : List Entry) (serves : Serves op vsys all) where
  served : (n : ℕ) (s : S) → op (asking (n + 1)) vsys s ≡ ((none, take 500 (drop n all)), s)
  served n s =
      let less : n + 1 - 1 ≡ n = omega arith in
      serves (n + 1) s ∙ ap (λ k. ((none, take 500 (drop k all)), s)) less

  -- What follows a page.
  abbrev after_page : ℕ → ℕ → Tags → S → List Entry → Option ((Option Error × Option Tags) × S)
  after_page fuel n ans s page =
      if ltb (length page) 500
      then some ((none, some (put_all user_of tags_of page ans)), s)
      else read_pages op fuel "" vsys (asking (n + 1)) (n + length page)
          (put_all user_of tags_of page ans) s

  round :
      (fuel n : ℕ) (req : Request) (ans : Tags) (s : S)
      → Asks req
      → read_pages op (suc fuel) "" vsys req n ans s
        ≡ after_page fuel n ans s (take 500 (drop n all))
  unfolding read_pages take_page should_stop
  round fuel n req ans s asks =
      ap
        (λ q.
          take_page q ans (op q vsys s)
            (λ ans' s'. read_pages op fuel "" vsys q (n + length (op q vsys s).0.1) ans' s'))
        (asks n)
      ∙ ap
          (λ r.
            take_page (asking (n + 1)) ans r
              (λ ans' s'. read_pages op fuel "" vsys (asking (n + 1)) (n + length r.0.1) ans' s'))
          (served n s)

  -- From the entries that were read to all of them.
  pages_from :
      (fuel : ℕ) (done rest : List Entry) (req : Request) (s : S)
      → done ++ rest ≡ all
      → Asks req
      → length rest < 500 * fuel
      → read_pages op fuel "" vsys req (length done) (put_all user_of tags_of done []) s
        ≡ some ((none, some (put_all user_of tags_of all [])), s)
  pages_from zero done rest req s whole asks enough = absurd (omega arith)
  pages_from (suc fuel) done rest req s whole asks enough =
      let at : drop (length done) all ≡ rest =
        ap (drop (length done)) (sym whole) ∙ drop-append done rest in
      let so_far : (n : ℕ)
          → put_all user_of tags_of (take n rest) (put_all user_of tags_of done [])
            ≡ put_all user_of tags_of (done ++ take n rest) [] =
        λ n. sym (put_all-append user_of tags_of done (take n rest) []) in
      round fuel (length done) req (put_all user_of tags_of done []) s asks
      ∙ ap (λ l. after_page fuel (length done) (put_all user_of tags_of done []) s (take 500 l)) at
      ∙ elim (Bool-cases (ltb (length (take 500 rest)) 500)) [
        | inl short ↦ rw short (
            ap (λ m. some ((none, some m), s))
              (so_far 500
                ∙ ap (λ l. put_all user_of tags_of l [])
                    (ap (λ t. done ++ t) (last_page 500 rest short) ∙ whole)))
        | inr full ↦
            let left : length (drop 500 rest) < 500 * fuel =
              omega (arith, length-drop 500 rest, full_page 500 rest full) in
            rw full (
              ap
                (λ m.
                  read_pages op fuel "" vsys (asking (length done + 1))
                    (length done + length (take 500 rest)) m s)
                (so_far 500)
              ∙ ap
                  (λ k.
                    read_pages op fuel "" vsys (asking (length done + 1)) k
                      (put_all user_of tags_of (done ++ take 500 rest) []) s)
                  (sym (length-append done (take 500 rest)))
              ∙ pages_from fuel (done ++ take 500 rest) (drop 500 rest) (asking (length done + 1)) s
                  (append_assoc done (take 500 rest) (drop 500 rest)
                    ∙ ap (λ t. done ++ t) (take-drop 500 rest)
                    ∙ whole)
                  (asking-Asks (length done + 1)) left)
      ]

-- On a device that serves its entries in pages, GetUserTags of no user in particular ends without an
-- error and returns the map that the entries fill, in their order, in as many requests as one more
-- than the full pages.
pub get_user_tags_lem :
    {S : Type 0} (op : Request → String → S → (Option Error × List Entry) × S) (fuel : ℕ)
    (vsys : String) (all : List Entry) (s : S)
    → Serves op (vsys_or_default vsys) all
    → length all < 500 * fuel
    → get_user_tags op fuel "" vsys s ≡ some ((none, some (put_all user_of tags_of all [])), s)
unfolding get_user_tags put_all
get_user_tags_lem op fuel vsys all s serves enough =
    pages_from op (vsys_or_default vsys) all serves fuel [] all new_request s refl new-Asks enough
