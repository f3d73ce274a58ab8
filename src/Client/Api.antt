-- ===== src/Client/Api.antt =====
-- The client of client.go as the `util.XapiClient` of a namespace, which passes nil for the extras and
-- the answer of every call.
use pango.Base.{String, List, [], ◌∷◌, ◌++◌, Option, none, some, Error, ◌≡◌, ap, ◌∙◌}
use pango.Util.Xpath.{segments}
use pango.Namespace.Client.{Element, object, bulk, XapiClient, Namespace}
use pango.Namespace.Write as Write
use pango.Namespace.Write.Laws.{AreDistinct, to_entry, sent, set_of_distinct}
use pango.Client.Values.{absent, plain, struct}
use pango.Client.Config as Config
use pango.Client.Config.{Client, World, Request, Reply}
use pango.Client.Config.Queue.{setting, queued, with_queue, queue_step}

module _ {Net Data Ans : Type 0} (w : World Net (Element Data) Ans) where
  -- The bytes and the error of a reply.
  abbrev read_of :
      Reply Ans × Client Net (Element Data) → (String × Option Error) × Client Net (Element Data)
  read_of ((r, ans), c) = (r, c)

  abbrev error_of : Reply Ans × Client Net (Element Data) → Option Error × Client Net (Element Data)
  error_of (((text, err), ans), c) = (err, c)

  abbrev pub api : XapiClient (Client Net (Element Data)) Data
  api = record {
    get = λ path c. read_of (Config.get w (segments path) absent none c);
    show = λ path c. read_of (Config.show w (segments path) absent none c);
    set = λ path e c. error_of (Config.set w (segments path) (plain (struct e)) absent none c);
    edit = λ path d c.
        error_of (Config.edit w (segments path) (plain (struct (object d))) absent none c);
    delete = λ path c. error_of (Config.delete w (segments path) absent none c);
    move = λ path where_ dst c. error_of (Config.move w (segments path) where_ dst absent none c);
  }

  module _ (singular plural : String) where
    abbrev pub over_api : Namespace (Client Net (Element Data)) Data
    over_api = record { singular = singular; plural = plural; con = api }

    -- The request of a `Set` of some objects.
    abbrev pub request_for : List String → String → Data → List Data → Request (Element Data)
    request_for before tag d [] =
        queued (setting (segments (before ++ tag ∷ [])) (plain (struct (object d))))
    request_for before tag d (e ∷ ds) =
        queued (setting (segments before) (plain (struct (bulk tag (d ∷ e ∷ ds)))))

    sent_queued :
        (before : List String) (tag : String) (d : Data) (ds : List Data)
        (c : Client Net (Element Data)) (q : List (Request (Element Data)))
        → c.multi ≡ some q
        → sent over_api before tag (d ∷ ds) c
          ≡ (none, with_queue w absent none (q ++ request_for before tag d ds ∷ []) c)
    sent_queued before tag d [] c q h = ap error_of (
        queue_step w absent none
          (setting (segments (before ++ tag ∷ [])) (plain (struct (object d)))) c q h)
    sent_queued before tag d (e ∷ ds) c q h = ap error_of (
        queue_step w absent none
          (setting (segments before) (plain (struct (bulk tag (d ∷ e ∷ ds))))) c q h)

    -- While the client has a queue, `Set` of a namespace with distinct names and some objects, at a
    -- path that ends in a tag and an entry, returns no error and queues one request, for the one
    -- object at its parent or for all of them under their tag; nothing else of the client changes.
    pub set_queued :
        (names before : List String) (tag entry : String) (d : Data) (ds : List Data)
        (c : Client Net (Element Data)) (q : List (Request (Element Data)))
        → AreDistinct names
        → c.multi ≡ some q
        → Write.set over_api names (to_entry before tag entry) (d ∷ ds) c
          ≡ some (none, with_queue w absent none (q ++ request_for before tag d ds ∷ []) c)
    set_queued names before tag entry d ds c q distinct h =
        set_of_distinct over_api names before tag entry (d ∷ ds) c distinct
        ∙ ap some (sent_queued before tag d ds c q h)
