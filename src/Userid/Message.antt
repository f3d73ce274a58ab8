-- ===== src/Userid/Message.antt =====
-- userid/message.go and userid/userid.go: a message about users, as it is encoded and sent. The
-- description that is built beside it is for the log; the message is nil where it would be empty.
-- A nil slice is an empty list, since the code asks for lengths and elements alone.
pub mod RoundTrip
use pango.Base.{
  String, List, [], ◌∷◌, map, Bool, true, false, ◌&&◌, Option, none, some, Error, ℤ, pos, is_empty,
  if◌then◌else◌,
}
use pango.Util.Member.{EntryType, Entry}
use pango.Userid.{vsys_or_default}

pub record Login : Type 0 where
  pub user : String
  pub ip : String

pub record Logout : Type 0 where
  pub user : String
  pub ip : String

pub record TagIp : Type 0 where
  pub ip : String
  pub tags : List String

pub record UntagIp : Type 0 where
  pub ip : String
  pub tags : List String

pub record Group : Type 0 where
  pub name : String
  pub users : List String

pub record UserTag : Type 0 where
  pub tag : String
  pub timeout : ℤ

pub record TagUser : Type 0 where
  pub user : String
  pub tags : List UserTag

pub record UntagUser : Type 0 where
  pub user : String
  pub tags : List String

pub record Message : Type 0 where
  pub logins : List Login
  pub logouts : List Logout
  pub tag_ips : List TagIp
  pub untag_ips : List UntagIp
  pub groups : List Group
  pub tag_users : List TagUser
  pub untag_users : List UntagUser

-- The XML structs; those that hold a list alone are that list.
pub record InOut : Type 0 where
  pub name : String
  pub ip : String

pub record IpTag : Type 0 where
  pub ip : String
  pub tags : List String

pub record GroupDef : Type 0 where
  pub name : String
  pub members : EntryType

-- `userTag`
pub record TagDef : Type 0 where
  pub tag : String
  pub timeout : ℤ

pub record UserTagEntry : Type 0 where
  pub user : String
  pub tags : Option (List TagDef)

pub record Payload : Type 0 where
  pub login : Option (List InOut)
  pub logout : Option (List InOut)
  pub tag_ip : Option (List IpTag)
  pub untag_ip : Option (List IpTag)
  pub group : Option (List GroupDef)
  pub tag_user : Option (List UserTagEntry)
  pub untag_user : Option (List UserTagEntry)

pub record Uid : Type 0 where
  pub version : String
  pub type : String
  pub payload : Payload

-- A part of the payload, which is nil where the message has none of it.
abbrev pub part : {A B : Type 0} → (A → B) → List A → Option (List B)
part f [] = none
part f (x ∷ xs) = some (map f (x ∷ xs))

abbrev pub group_def : Group → GroupDef
group_def g = record {
  name = g.name;
  members = record { entries = map (λ u. record { value = u }) g.users };
}

abbrev pub tag_entry : TagUser → UserTagEntry
tag_entry u = record {
  user = u.user;
  tags = some (map (λ t. record { tag = t.tag; timeout = t.timeout }) u.tags);
}

abbrev pub untag_entry : UntagUser → UserTagEntry
untag_entry u = record {
  user = u.user;
  tags = part (λ t. record { tag = t; timeout = pos 0 }) u.tags;
}

-- `buf.Len() == 0`
abbrev pub says_nothing : Message → Bool
says_nothing m =
    is_empty m.logins
    && is_empty m.logouts
    && is_empty m.tag_ips
    && is_empty m.untag_ips
    && is_empty m.groups
    && is_empty m.tag_users
    && is_empty m.untag_users

abbrev pub payload_of : Message → Payload
payload_of m = record {
  login = part (λ l. record { name = l.user; ip = l.ip }) m.logins;
  logout = part (λ l. record { name = l.user; ip = l.ip }) m.logouts;
  tag_ip = part (λ t. record { ip = t.ip; tags = t.tags }) m.tag_ips;
  untag_ip = part (λ t. record { ip = t.ip; tags = t.tags }) m.untag_ips;
  group = part group_def m.groups;
  tag_user = part tag_entry m.tag_users;
  untag_user = part untag_entry m.untag_users;
}

-- `encode`; a message of nil is `none`.
unfoldable pub encode : Option Message → Option Uid
encode none = none
encode (some m) =
    if says_nothing m
    then none
    else some (record { version = "1.0"; type = "update"; payload = payload_of m })

-- `Run`, over `Uid` of the client.
unfoldable pub run :
    {S : Type 0}
    → (Uid → String → S → Option Error × S)
    → Option Message
    → String
    → S
    → Option Error × S
unfolding encode
run uid msg vsys s = elim (encode msg) [
  | none ↦ (none, s)
  | some req ↦ uid req (vsys_or_default vsys) s
]
