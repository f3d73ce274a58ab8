-- ===== src/Userid/Message/RoundTrip.antt =====
-- A message can be read back from what is sent.
use pango.Base.{
  String, List, [], ◌∷◌, map, true, false, Option, none, some, Error, pos, is_empty, ◌≡◌, ◌≢◌, refl,
  sym, ap, ◌∙◌, arith, Bool-cases, inl, inr, ◌⊎◌,
}
use pango.Util.Member.{Entry}
use pango.Userid.{vsys_or_default}
use pango.Userid.Message.{
  Login, Logout, TagIp, UntagIp, Group, UserTag, TagUser, UntagUser, Message, InOut, IpTag,
  GroupDef, TagDef, UserTagEntry, Payload, Uid, part, group_def, tag_entry, untag_entry,
  says_nothing, payload_of, encode, run,
}

abbrev read_part : {A B : Type 0} → (B → A) → Option (List B) → List A
read_part back none = []
read_part back (some l) = map back l

map_back :
    {A B : Type 0} (f : A → B) (back : B → A)
    → ((x : A) → back (f x) ≡ x)
    → (l : List A) → map back (map f l) ≡ l
map_back f back h [] = refl
map_back f back h (x ∷ l) = λ i. h x i ∷ map_back f back h l i

read_part-part :
    {A B : Type 0} (f : A → B) (back : B → A)
    → ((x : A) → back (f x) ≡ x)
    → (l : List A) → read_part back (part f l) ≡ l
read_part-part f back h [] = refl
read_part-part f back h (x ∷ l) = map_back f back h (x ∷ l)

abbrev login_of : InOut → Login
login_of x = record { user = x.name; ip = x.ip }

abbrev logout_of : InOut → Logout
logout_of x = record { user = x.name; ip = x.ip }

abbrev tag_ip_of : IpTag → TagIp
tag_ip_of x = record { ip = x.ip; tags = x.tags }

abbrev untag_ip_of : IpTag → UntagIp
untag_ip_of x = record { ip = x.ip; tags = x.tags }

abbrev value_of : Entry → String
value_of m = m.value

abbrev group_of : GroupDef → Group
group_of x = record { name = x.name; users = map value_of x.members.entries }

abbrev user_tag : TagDef → UserTag
user_tag t = record { tag = t.tag; timeout = t.timeout }

abbrev tag_user_of : UserTagEntry → TagUser
tag_user_of x = record { user = x.user; tags = read_part user_tag x.tags }

abbrev tag_of : TagDef → String
tag_of t = t.tag

abbrev untag_user_of : UserTagEntry → UntagUser
untag_user_of x = record { user = x.user; tags = read_part tag_of x.tags }

-- The message of a payload.
abbrev pub message_of : Payload → Message
message_of p = record {
  logins = read_part login_of p.login;
  logouts = read_part logout_of p.logout;
  tag_ips = read_part tag_ip_of p.tag_ip;
  untag_ips = read_part untag_ip_of p.untag_ip;
  groups = read_part group_of p.group;
  tag_users = read_part tag_user_of p.tag_user;
  untag_users = read_part untag_user_of p.untag_user;
}

payload_kept : (m : Message) → message_of (payload_of m) ≡ m
payload_kept m = λ i. record {
  logins =
      read_part-part (λ l. record { name = l.user; ip = l.ip }) login_of (λ x. refl) m.logins i;
  logouts =
      read_part-part (λ l. record { name = l.user; ip = l.ip }) logout_of (λ x. refl) m.logouts i;
  tag_ips =
      read_part-part (λ t. record { ip = t.ip; tags = t.tags }) tag_ip_of (λ x. refl) m.tag_ips i;
  untag_ips =
      read_part-part (λ t. record { ip = t.ip; tags = t.tags }) untag_ip_of (λ x. refl) m.untag_ips
        i;
  groups =
      read_part-part group_def group_of
        (λ g j. record {
          name = g.name;
          users = map_back (λ u. record { value = u }) value_of (λ u. refl) g.users j;
        })
        m.groups i;
  tag_users =
      read_part-part tag_entry tag_user_of
        (λ u j. record {
          user = u.user;
          tags =
              map_back (λ t. record { tag = t.tag; timeout = t.timeout }) user_tag (λ t. refl)
                u.tags j;
        })
        m.tag_users i;
  untag_users =
      read_part-part untag_entry untag_user_of
        (λ u j. record {
          user = u.user;
          tags =
              read_part-part (λ t. record { tag = t; timeout = pos 0 }) tag_of (λ t. refl) u.tags j;
        })
        m.untag_users i;
}

-- `Message{}`
abbrev pub no_message : Message
no_message = record {
  logins = [];
  logouts = [];
  tag_ips = [];
  untag_ips = [];
  groups = [];
  tag_users = [];
  untag_users = [];
}

nil_of : {A : Type 0} (l : List A) → is_empty l ≡ true → l ≡ []
nil_of [] h = refl
nil_of (x ∷ l) h = absurd (ground (arith, h))

nothing : (m : Message) → says_nothing m ≡ true → m ≡ no_message
nothing m h = λ i. record {
  logins = nil_of m.logins (ground (arith, h)) i;
  logouts = nil_of m.logouts (ground (arith, h)) i;
  tag_ips = nil_of m.tag_ips (ground (arith, h)) i;
  untag_ips = nil_of m.untag_ips (ground (arith, h)) i;
  groups = nil_of m.groups (ground (arith, h)) i;
  tag_users = nil_of m.tag_users (ground (arith, h)) i;
  untag_users = nil_of m.untag_users (ground (arith, h)) i;
}

something : (m : Message) → says_nothing m ≡ false → m ≢ no_message
something m h e = ground (arith, sym h ∙ ap says_nothing e)

-- Nothing is sent for the empty message; any other is sent in one call, with a payload from which it
-- can be read back with every part in its order, to the vsys, or to vsys1 where none is given.
pub run_lem :
    {S : Type 0} (uid : Uid → String → S → Option Error × S) (m : Message) (vsys : String) (s : S)
    → ((m ≡ no_message) × (run uid (some m) vsys s ≡ (none, s)))
      ⊎ ((m ≢ no_message)
          × ((req : Uid) × (run uid (some m) vsys s ≡ uid req (vsys_or_default vsys) s)
              × (message_of req.payload ≡ m)))
unfolding run encode
run_lem uid m vsys s = elim (Bool-cases (says_nothing m)) [
  | inl e ↦ inl (nothing m e, rw (e, run) refl)
  | inr e ↦ inr (
    something m e,
    (
      record { version = "1.0"; type = "update"; payload = payload_of m },
      rw (e, run) refl,
      payload_kept m,
    ),
  )
]
