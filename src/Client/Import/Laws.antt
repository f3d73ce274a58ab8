-- ===== src/Client/Import/Laws.antt =====
-- What the answers of the client come to in the imports.
use pango.Base.{
  String, List, [], ◌∷◌, Bool, true, false, not, none, some, Error, object_not_found, ◌≡◌, ◌==◌,
  if◌then◌else◌, arith,
}
use pango.Namespace.Client.{XapiClient}
use pango.Client.Import.{Vis, member_path, vsys_unimport, is_imported}

module _ {S : Type 0} (c : XapiClient S Vis) where
  -- An error of `VsysUnimport` is the client's, for the path of the names in every vsys, and is never
  -- the one that says that there is no such object.
  pub vsys_unimport_error :
      (loc tmpl ts : String) (names : List String) (s s' : S) (e : Error)
      → vsys_unimport c loc tmpl ts names s ≡ (some e, s')
      → ((c.delete (member_path loc tmpl ts "" names) s).0 ≡ some e) × (object_not_found e ≡ false)
  unfolding vsys_unimport
  vsys_unimport_error loc tmpl ts names s s' e h = ground (arith, h)

  -- Where the answer to the read of the member is an error that says that there is no such object
  -- unless the member is there, `IsImported` returns no error, and says whether it is there for a
  -- vsys, and whether it is in none for the empty vsys.
  pub is_imported_lem :
      (loc tmpl ts vsys name : String) (s : S) (here : Bool) (e : Error)
      → object_not_found e ≡ true
      → (c.get (member_path loc tmpl ts vsys (name ∷ [])) s).0.1 ≡ (if here then none else some e)
      → (is_imported c loc tmpl ts vsys name s).0 ≡ ((if vsys == "" then not here else here), none)
  unfolding is_imported
  is_imported_lem loc tmpl ts vsys name s here e missing answer = ground (arith, missing, answer)
