-- ===== src/Entries/Device.antt =====
-- A device that stores objects by name, as `Stored` asks of one. Its state is what it holds, by the
-- path of the parent and the name.
use pango.Base.{
  String, List, [], ◌∷◌, ◌++◌, Bool, true, false, ◌&&◌, Option, none, some, Error, panos_error, pos,
  ◌≡◌, refl, ap, ◌∙◌, All, elem, ◌==◌, eq_refl, if◌then◌else◌,
}
use pango.Base.Strings.{Lacks}
use pango.Util.Xpath.{as_entry_xpath, any_name}
use pango.Util.Xpath.Names.{quoted_names, quoted_names-as_entry_xpath}
use pango.Namespace.Client.{Element, object, bulk, drop_last, drop_last-append}
use pango.Entries.{Con}
use pango.Entries.Stored.{IsPlain, under, answered, set_each, IsDevice}

abbrev pub State : Type 0 → Type 0
State Object = List String → String → Option Object

same_path : List String → List String → Bool
same_path [] [] = true
same_path [] (y ∷ ys) = false
same_path (x ∷ xs) [] = false
same_path (x ∷ xs) (y ∷ ys) = x == y && same_path xs ys

same_path_refl : (xs : List String) → same_path xs xs ≡ true
unfolding same_path
same_path_refl [] = refl
same_path_refl (x ∷ xs) = rw (eq_refl x, same_path_refl xs) refl

last_of : List String → String
last_of [] = ""
last_of (x ∷ []) = x
last_of (x ∷ y ∷ xs) = last_of (y ∷ xs)

last-append : (xs : List String) (y : String) → last_of (xs ++ y ∷ []) ≡ y
unfolding last_of
last-append [] y = refl
last-append (x ∷ []) y = refl
last-append (x ∷ z ∷ xs) y = last-append (z ∷ xs) y

-- The parent of a path, and the names in its last segment.
parent_of : List String → List String
unfolding drop_last
parent_of path = drop_last 1 path

names_at : List String → List String
names_at path = quoted_names (last_of path)

parent-under : (p ns : List String) → parent_of (under p ns) ≡ p
unfolding parent_of
parent-under p ns = drop_last-append p (as_entry_xpath ns ∷ [])

AllLacks : (ns : List String) → All IsPlain ns → All (Lacks 39) ns
AllLacks [] h = tt
AllLacks (n ∷ ns) ((lacks, filled), h) = (lacks, AllLacks ns h)

some_name : (n : String) (ns : List String) → (n == "") ≡ false → any_name (n ∷ ns) ≡ false
some_name n [] h = h
some_name n (m ∷ ns) h = refl

names-under :
    (p : List String) (n : String) (ns : List String)
    → All IsPlain (n ∷ ns)
    → names_at (under p (n ∷ ns)) ≡ n ∷ ns
unfolding names_at
names-under p n ns h =
    ap quoted_names (last-append p (as_entry_xpath (n ∷ ns)))
    ∙ quoted_names-as_entry_xpath (n ∷ ns) (AllLacks (n ∷ ns) h) (some_name n ns h.0.1)

module _ {Object Container : Type 0} (object_name : Object → String)
    (holds : Object → Container) where
  abbrev pub missing : Error
  missing = panos_error "Object not found" (pos 7)

  -- What is stored under one parent is changed.
  change :
      List String
      → ((String → Option Object) → String → Option Object)
      → State Object
      → State Object
  unfolding same_path
  change p f s = λ q. if same_path p q then f (s q) else s q

  change_self :
      (p : List String) (f : (String → Option Object) → String → Option Object) (s : State Object)
      → change p f s p ≡ f (s p)
  unfolding change
  change_self p f s = rw (same_path_refl p) refl

  abbrev stored : Object → (String → Option Object) → String → Option Object
  stored o old = λ m. if object_name o == m then some o else old m

  abbrev without : List String → (String → Option Object) → String → Option Object
  without ns old = λ m. if elem m ns then none else old m

  put : List String → Object → State Object → State Object
  unfolding change
  put p o s = change p (stored o) s

  put_each : List String → List Object → State Object → State Object
  unfolding put
  put_each p [] s = s
  put_each p (o ∷ os) s = put_each p os (put p o s)

  abbrev one_name : List String → String
  one_name [] = ""
  one_name (n ∷ ns) = n

  look : List String → Container → State Object → (Option Error × Container) × State Object
  unfolding parent_of names_at
  look path ans s = (answered missing holds ans (s (parent_of path) (one_name (names_at path))), s)

  receive : List String → Element Object → State Object → Option Error × State Object
  unfolding put put_each
  receive path (object o) s = (none, put path o s)
  receive path (bulk tag os) s = (none, put_each (path ++ tag ∷ []) os s)

  -- The lists of names are not asked for.
  pub device : Con (State Object) Object Container
  unfolding look receive put change parent_of names_at
  device = record {
    get = look;
    show = look;
    get_strings = λ path s. ((none, []), s);
    show_strings = λ path s. ((none, []), s);
    set = receive;
    edit = λ path o s. (none, put (parent_of path) o s);
    delete = λ path s. (none, change (parent_of path) (without (names_at path)) s);
  }

  put_each_lem :
      (p : List String) (os : List Object) (s : State Object)
      → put_each p os s ≡ set_each device p os s
  unfolding put_each device receive
  put_each_lem p [] s = refl
  put_each_lem p (o ∷ os) s = put_each_lem p os (put p o s)

  under_self :
      (p : List String) (n : String) (ns : List String) (s : State Object)
      (f : List String → (String → Option Object) → String → Option Object)
      → All IsPlain (n ∷ ns)
      → change (parent_of (under p (n ∷ ns))) (f (names_at (under p (n ∷ ns)))) s p
        ≡ f (n ∷ ns) (s p)
  under_self p n ns s f h =
      rw (parent-under p (n ∷ ns), names-under p n ns h) (change_self p (f (n ∷ ns)) s)

  put_self :
      (p : List String) (n : String) (o : Object) (s : State Object)
      → object_name o ≡ n
      → put p o s p ≡ (λ m. if n == m then some o else s p m)
  unfolding put
  put_self p n o s named =
      change_self p (stored o) s ∙ (λ i m. if named i == m then some o else s p m)

  pub device-IsDevice : IsDevice device object_name holds
  unfolding device look receive
  device-IsDevice = record {
    held = λ p n s. s p n;
    missing = missing;
    get_lem = λ p n ans s h. (λ i. (
      answered missing holds ans
          (s (parent-under p (n ∷ []) i) (one_name (names-under p n [] (h, tt) i))),
      s,
    ));
    edit_ok = λ p n o s h named. refl;
    edit_held = λ p n o s m h named.
        ap (λ q. put q o s p m) (parent-under p (n ∷ [])) ∙ ap (λ f. f m) (put_self p n o s named);
    set_ok = λ p o s. refl;
    set_held = λ p o s m h new. ap (λ f. f m) (put_self p (object_name o) o s refl);
    bulk_lem = λ p tag os s. ap (λ t. (none, t)) (put_each_lem (p ++ tag ∷ []) os s);
    delete_ok = λ p n ns s h. refl;
    delete_held = λ p n ns s m h. ap (λ f. f m) (under_self p n ns s without h);
  }

  pub held-device :
      (p : List String) (n : String) (s : State Object) → device-IsDevice.held p n s ≡ s p n
  unfolding device-IsDevice
  held-device p n s = refl
