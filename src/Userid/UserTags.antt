-- ===== src/Userid/UserTags.antt =====
-- userid/usertags.go: the dynamic tags of users, read in pages.
--
-- `op` is `Op` of the client, for the requests of this package. The loop ends where the device says so; it
-- runs on fuel, a unit for each request.
pub mod Paging
use pango.Base.{
  ℕ, zero, suc, ◌+◌, String, List, [], ◌∷◌, Bool, true, not, Option, none, some, Error, length, ltb,
  ◌==◌, if◌then◌else◌,
}
use pango.Util.Member.{MemberType, mem_to_str}
use pango.Userid.{put_all, vsys_or_default}

-- `gutDataAll`
pub record All : Type 0 where
  pub limit : ℕ
  pub start : ℕ

-- `gutReq`, with the fields of its `gutData`.
pub record Request : Type 0 where
  pub all : Option All
  pub user : String

pub record Entry : Type 0 where
  pub user : String
  pub tags : Option MemberType

abbrev pub new_request : Request
new_request = record { all = none; user = "" }

abbrev with_start : ℕ → Option All → Option All
with_start n none = some (record { limit = 500; start = n + 1 })
with_start n (some a) = some (record a { start = n + 1 })

-- `FilterOn`
unfoldable pub filter_on : String → ℕ → Request → Request
filter_on user n o =
    if not (user == "")
    then record o { user = if o.user == "" then user else o.user }
    else record o { all = with_start n o.all }

abbrev stops : Option All → ℕ → Bool
stops none last_count = true
stops (some a) last_count = ltb last_count a.limit

-- `ShouldStop`
unfoldable pub should_stop : ℕ → Request → Bool
should_stop last_count o = stops o.all last_count

abbrev pub Tags : Type 0
Tags = List (String × Option (List String))

abbrev pub tags_of : Entry → Option (List String)
tags_of e = mem_to_str e.tags

-- The part of the loop after the call: `rest` is its next round.
unfoldable pub take_page :
    {S : Type 0}
    → Request
    → Tags
    → (Option Error × List Entry) × S
    → (Tags → S → Option ((Option Error × Option Tags) × S))
    → Option ((Option Error × Option Tags) × S)
unfolding should_stop put_all
take_page req ans ((err, entries), s') rest =
    let ans' = put_all (λ e. e.user) tags_of entries ans in
    elim err [
      | some e ↦ some ((some e, none), s')
      | none ↦
          if should_stop (length entries) req then some ((none, some ans'), s') else rest ans' s'
    ]

module _ {S : Type 0} (op : Request → String → S → (Option Error × List Entry) × S) where
  -- The loop of `GetUserTags`, where `n` is `length`.
  unfoldable pub read_pages :
      ℕ → String → String → Request → ℕ → Tags → S → Option ((Option Error × Option Tags) × S)
  unfolding filter_on take_page
  read_pages zero user vsys req n ans s = none
  read_pages (suc fuel) user vsys req n ans s =
      let req' = filter_on user n req in
      let answer = op req' vsys s in
      take_page req' ans answer
        (λ ans' s'. read_pages fuel user vsys req' (n + length answer.0.1) ans' s')

  -- `GetUserTags`
  unfoldable pub get_user_tags : ℕ → String → String → S → Option ((Option Error × Option Tags) × S)
  unfolding read_pages
  get_user_tags fuel user vsys s = read_pages fuel user (vsys_or_default vsys) new_request 0 [] s
