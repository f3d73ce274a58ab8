-- ===== src/Userid/IpTags/Paging.antt =====
-- `GetIpTags` reads all pages of the device.
use pango.Base.{
  ℕ, zero, suc, ◌+◌, ◌-◌, ◌*◌, ◌<◌, String, List, [], ◌++◌, true, Option, none, some, Error, pos,
  length, take, drop, ltb, ◌≡◌, refl, sym, ap, subst, ◌∙◌, ◌==◌, arith, if◌then◌else◌, Bool-cases,
  inl, inr,
}
use mathlib.Core.List.{append_assoc}
use pango.Version.{Number, gte}
use pango.Namespace.Write.Laws.{AreDistinct}
use pango.Userid.{put_all, vsys_or_default}
use pango.Userid.Filled.{
  take-drop, drop-append, length-drop, last_page, full_page, pairs, keys, put_all-append,
  put_all_distinct, length-put_all,
}
use pango.Userid.IpTags.{
  Request, RespEntry, RegResp, Tags, req_v3, new_request, versioning, filter_on, should_stop,
  read_pages, take_page, get_ip_tags,
}

abbrev pub filtered : String → Option String
filtered tag = if tag == "" then none else some tag

-- The request for the page from `start` on.
abbrev pub asking : String → String → ℕ → Request
asking ip tag start = record {
  style = req_v3;
  tag = filtered tag;
  ip = ip;
  limit = 500;
  start = start;
}

abbrev key : RespEntry → String
key e = e.ip

abbrev val : RespEntry → List String
val e = e.tags

-- A request that the filter makes one for a page.
abbrev Asks : String → String → Request → Type 0
Asks ip tag req = (size : ℕ) → filter_on ip tag size req ≡ asking ip tag (size + 1)

new-Asks : (ip tag : String) → Asks ip tag (new_request req_v3)
unfolding filter_on
new-Asks ip tag size = refl

asking-Asks : (ip tag : String) (start : ℕ) → Asks ip tag (asking ip tag start)
unfolding filter_on
asking-Asks ip tag start size = elim (Bool-cases (tag == "")) [
  | inl e ↦ rw e refl
  | inr e ↦ rw e refl
]

-- A device that answers the requests for pages of the entries that pass the filter, which stay.
abbrev pub Serves :
    {S : Type 0}
    → (Request → String → S → (Option Error × RegResp) × S)
    → String
    → String
    → String
    → List RespEntry
    → Type 0
Serves {S} op ip tag vsys all =
    (start : ℕ) (s : S)
    → op (asking ip tag start) vsys s
      ≡ ((none, record { entries = take 500 (drop (start - 1) all); outfile = none }), s)

module _ {S : Type 0} (op : Request → String → S → (Option Error × RegResp) × S)
    (ip tag vsys : String) (all : List RespEntry) (serves : Serves op ip tag vsys all)
    (distinct : AreDistinct (keys key val all)) where
  served :
      (size : ℕ) (s : S)
      → op (asking ip tag (size + 1)) vsys s
        ≡ ((none, record { entries = take 500 (drop size all); outfile = none }), s)
  served size s =
      let less : size + 1 - 1 ≡ size = omega arith in
      serves (size + 1) s
      ∙ ap (λ n. ((none, record { entries = take 500 (drop n all); outfile = none }), s)) less

  -- What follows a page.
  abbrev after_page : ℕ → ℕ → Tags → S → List RespEntry → Option ((Option Error × Option Tags) × S)
  after_page fuel size ans s page =
      if ltb (length page) 500
      then some ((none, some (put_all key val page ans)), s)
      else read_pages op fuel ip tag vsys (asking ip tag (size + 1)) (put_all key val page ans) s

  round :
      (fuel size : ℕ) (req : Request) (ans : Tags) (s : S)
      → Asks ip tag req
      → length ans ≡ size
      → read_pages op (suc fuel) ip tag vsys req ans s
        ≡ after_page fuel size ans s (take 500 (drop size all))
  unfolding read_pages take_page should_stop
  round fuel size req ans s asks e =
      ap (λ q. take_page q ans (op q vsys s) (λ ans' s'. read_pages op fuel ip tag vsys q ans' s'))
        (ap (λ n. filter_on ip tag n req) e ∙ asks size)
      ∙ ap
          (λ r.
            take_page (asking ip tag (size + 1)) ans r
              (λ ans' s'. read_pages op fuel ip tag vsys (asking ip tag (size + 1)) ans' s'))
          (served size s)

  -- From the entries that were read to all of them.
  pages_from :
      (fuel : ℕ) (done rest : List RespEntry) (req : Request) (s : S)
      → done ++ rest ≡ all
      → Asks ip tag req
      → length rest < 500 * fuel
      → read_pages op fuel ip tag vsys req (put_all key val done []) s
        ≡ some ((none, some (put_all key val all [])), s)
  pages_from zero done rest req s whole asks enough = absurd (omega arith)
  pages_from (suc fuel) done rest req s whole asks enough =
      let at : drop (length done) all ≡ rest =
        ap (drop (length done)) (sym whole) ∙ drop-append done rest in
      let counted : length (put_all key val done []) ≡ length done =
        length-put_all key val done rest
          (subst (λ l. AreDistinct (keys key val l)) (sym whole) distinct) in
      let so_far : (n : ℕ)
          → put_all key val (take n rest) (put_all key val done [])
            ≡ put_all key val (done ++ take n rest) [] =
        λ n. sym (put_all-append key val done (take n rest) []) in
      round fuel (length done) req (put_all key val done []) s asks counted
      ∙ ap (λ l. after_page fuel (length done) (put_all key val done []) s (take 500 l)) at
      ∙ elim (Bool-cases (ltb (length (take 500 rest)) 500)) [
        | inl short ↦ rw short (
            ap (λ m. some ((none, some m), s))
              (so_far 500
                ∙ ap (λ l. put_all key val l [])
                    (ap (λ t. done ++ t) (last_page 500 rest short) ∙ whole)))
        | inr full ↦
            let left : length (drop 500 rest) < 500 * fuel =
              omega (arith, length-drop 500 rest, full_page 500 rest full) in
            rw full (
              ap (λ m. read_pages op fuel ip tag vsys (asking ip tag (length done + 1)) m s)
                (so_far 500)
              ∙ pages_from fuel (done ++ take 500 rest) (drop 500 rest)
                  (asking ip tag (length done + 1)) s
                  (append_assoc done (take 500 rest) (drop 500 rest)
                    ∙ ap (λ t. done ++ t) (take-drop 500 rest)
                    ∙ whole)
                  (asking-Asks ip tag (length done + 1)) left)
      ]

-- From version 8.0 on, on a device that serves the entries that pass the filters, in pages, and whose
-- entries are of distinct addresses, GetIpTags ends without an error and returns the tags of every
-- entry, in as many requests as one more than the full pages.
pub get_ip_tags_lem :
    {S : Type 0} (op : Request → String → S → (Option Error × RegResp) × S) (fuel : ℕ)
    (version : Number) (ip tag vsys : String) (all : List RespEntry) (s : S)
    → Serves op ip tag (vsys_or_default vsys) all
    → AreDistinct (keys key val all)
    → gte version (record { major = pos 8; minor = pos 0; patch = pos 0; suffix = "" }) ≡ true
    → length all < 500 * fuel
    → get_ip_tags op fuel version ip tag vsys s ≡ some ((none, some (pairs key val all)), s)
unfolding get_ip_tags versioning put_all
get_ip_tags_lem op fuel version ip tag vsys all s serves distinct new enough =
    ap (λ o. read_pages op fuel ip tag (vsys_or_default vsys) o [] s) (rw new refl)
    ∙ pages_from op ip tag (vsys_or_default vsys) all serves distinct fuel [] all
        (new_request req_v3) s refl (new-Asks ip tag) enough
    ∙ ap (λ m. some ((none, some m), s)) (put_all_distinct key val all distinct)
