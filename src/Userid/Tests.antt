-- ===== src/Userid/Tests.antt =====
-- The tags of addresses and users, from devices that serve two entries.
use pango.Base.{
  ℕ, ◌-◌, String, List, [], ◌∷◌, Option, none, some, Error, take, drop, pos, ◌≡◌, ◌≢◌, ◌⊎◌, refl,
  arith,
}
use pango.Version.{Number, gte}
use pango.Userid.{put_all, vsys_or_default}
use pango.Userid.Groups.{groups_of, members_of}
use pango.Util.Packaging.{trim_space}
use pango.Base.Strings.{split}
use pango.Userid.Message.{Message, Uid, run}
use pango.Userid.Message.RoundTrip.{no_message, message_of, run_lem}
use pango.Userid.Filled.{pairs}
use pango.Userid.IpTags as IpTags
use pango.Userid.IpTags.{RespEntry, RegResp, get_ip_tags}
use pango.Userid.IpTags.Paging.{get_ip_tags_lem}
use pango.Userid.UserTags as UserTags
use pango.Userid.UserTags.{Entry, tags_of, get_user_tags}
use pango.Userid.UserTags.Paging.{get_user_tags_lem}

abbrev version : Number
version = record { major = pos 9; minor = pos 1; patch = pos 0; suffix = "" }

abbrev addresses : List RespEntry
addresses =
    record { ip = "10.0.0.1"; tags = "web" ∷ [] }
    ∷ record { ip = "10.0.0.2"; tags = "db" ∷ "web" ∷ [] }
    ∷ []

abbrev registered : IpTags.Request → String → ℕ → (Option Error × RegResp) × ℕ
registered o vsys s =
    ((none, record { entries = take o.limit (drop (o.start - 1) addresses); outfile = none }), s)

get_ip_tags_lem_example :
    get_ip_tags registered 1 version "" "web" "" 0
    ≡ some ((none, some (pairs (λ e. e.ip) (λ e. e.tags) addresses)), 0)
unfolding gte
get_ip_tags_lem_example =
    get_ip_tags_lem registered 1 version "" "web" "" addresses 0 (λ start s. refl)
      ((refl, tt), (tt, tt)) refl (omega arith)

abbrev users : List Entry
users = record { user = "ann"; tags = none } ∷ record { user = "bob"; tags = none } ∷ []

abbrev limit_of : Option UserTags.All → ℕ
limit_of none = 0
limit_of (some a) = a.limit

abbrev start_of : Option UserTags.All → ℕ
start_of none = 0
start_of (some a) = a.start

abbrev tagged : UserTags.Request → String → ℕ → (Option Error × List Entry) × ℕ
tagged o vsys s = ((none, take (limit_of o.all) (drop (start_of o.all - 1) users)), s)

get_user_tags_lem_example :
    get_user_tags tagged 1 "" "vsys2" 0
    ≡ some ((none, some (put_all (λ e. e.user) tags_of users [])), 0)
get_user_tags_lem_example =
    get_user_tags_lem tagged 1 "vsys2" users 0 (λ start s. refl) (omega arith)

abbrev message : Message
message = record {
  logins = record { user = "ann"; ip = "10.0.0.1" } ∷ [];
  logouts = [];
  tag_ips = record { ip = "10.0.0.2"; tags = "web" ∷ [] } ∷ [];
  untag_ips = [];
  groups = record { name = "admins"; users = "ann" ∷ "bob" ∷ [] } ∷ [];
  tag_users = [];
  untag_users = record { user = "bob"; tags = [] } ∷ [];
}

abbrev keeping : Uid → String → List Uid → Option Error × List Uid
keeping req vsys sent = (none, req ∷ sent)

run_lem_example :
    ((message ≡ no_message) × (run keeping (some message) "" [] ≡ (none, [])))
    ⊎ ((message ≢ no_message)
        × ((req : Uid) × (run keeping (some message) "" [] ≡ keeping req (vsys_or_default "") [])
            × (message_of req.payload ≡ message)))
run_lem_example = run_lem keeping message "" []

groups_run : groups_of ("" ∷ " cn=admins " ∷ "Total: 1" ∷ "rest" ∷ []) ≡ "cn=admins" ∷ []
unfolding groups_of trim_space
groups_run = refl

members_run : members_of ("[1     ] ann" ∷ "no bracket" ∷ "[2     ] bob" ∷ []) ≡ "ann" ∷ "bob" ∷ []
unfolding members_of split trim_space
members_run = refl
