-- ===== src/Client/Config/Queue.antt =====
-- A client with a queue of multi-configure requests: writes are queued in their order, and nothing is
-- sent.
use mathlib.Core.List.{append_assoc, append-nil}
use pango.Base.{
  String, List, [], ◌∷◌, ◌++◌, map, false, Option, none, some, Error, ◌≡◌, refl, ap, ◌∙◌, sym,
  arith,
}
use pango.Util.Xpath.{PathArg, as_xpath}
use pango.Client.Values.{Values, merge_url_values, Extras, Value, nil, plain, get_value}
use pango.Client.Config.{
  Client, World, Request, Reply, type_config, send_config, set, edit, delete, is_queued, post,
  communicate, conclude, finish_merged, finish_request, with_key, with_target,
}

-- The calls that write.
pub data Write (D : Type 0) : Type 0 where
  setting : PathArg → Value D → Write D
  editing : PathArg → Value D → Write D
  deleting : PathArg → Write D

-- The request that stands for a call.
abbrev pub queued : {D : Type 0} → Write D → Request D
queued (setting path e) = record { action = "set"; id = ""; xpath = as_xpath path; body = e }
queued (editing path e) = record { action = "edit"; id = ""; xpath = as_xpath path; body = e }
queued (deleting path) = record {
  action = "delete";
  id = "";
  xpath = as_xpath path;
  body = plain nil;
}

module _ {Net D Ans : Type 0} (w : World Net D Ans) (extras : Extras) (ans : Option Ans) where
  abbrev pub run : Write D → Client Net D → Reply Ans × Client Net D
  run (setting path e) c = set w path e extras ans c
  run (editing path e) c = edit w path e extras ans c
  run (deleting path) c = delete w path extras ans c

  abbrev pub run_all : List (Write D) → Client Net D → List (Reply Ans) × Client Net D
  run_all [] c = ([], c)
  run_all (call ∷ calls) c =
      let (r, c') = run call c in let (rs, c'') = run_all calls c' in (r ∷ rs, c'')

  -- A client with the given queue, otherwise as it is.
  abbrev pub with_queue : List (Request D) → Client Net D → Client Net D
  with_queue q c = record c { multi = some q }

  abbrev pub nothing_read : Reply Ans
  nothing_read = (("", none), ans)

  pub queue_step :
      (call : Write D) (c : Client Net D) (q : List (Request D))
      → c.multi ≡ some q
      → run call c ≡ (nothing_read, with_queue (q ++ queued call ∷ []) c)
  unfolding set edit delete type_config get_value
  queue_step (setting path e) c q h = ground (arith, h)
  queue_step (editing path e) c q h = ground (arith, h)
  queue_step (deleting path) c q h = ground (arith, h)

  -- Any calls that write, to a client with a queue, return no error and read nothing, their requests
  -- stand at the end of the queue in the order of the calls, and nothing else of the client
  -- changes, so that nothing is sent.
  pub run_all_lem :
      (calls : List (Write D)) (c : Client Net D) (q : List (Request D))
      → c.multi ≡ some q
      → run_all calls c ≡ (map (λ _. nothing_read) calls, with_queue (q ++ map queued calls) c)
  run_all_lem [] c q h = λ i. ([], record c { multi = (h ∙ ap some (sym (append-nil q))) i })
  run_all_lem (call ∷ calls) c q h =
      ap (λ x. (x.0 ∷ (run_all calls x.1).0, (run_all calls x.1).1)) (queue_step call c q h)
      ∙ ap (λ y. (nothing_read ∷ y.0, y.1))
          (run_all_lem calls (with_queue (q ++ queued call ∷ []) c) (q ++ queued call ∷ []) refl)
      ∙ ap (λ q'. (nothing_read ∷ map (λ _. nothing_read) calls, with_queue q' c))
          (append_assoc q (queued call ∷ []) (map queued calls))

  -- Without the queue, and with it again afterwards.
  abbrev pub beside_queue :
      (Client Net D → Reply Ans × Client Net D) → Client Net D → Reply Ans × Client Net D
  beside_queue call c =
      let (r, c') = call (record c { multi = none }) in (r, record c' { multi = c.multi })

  post_beside :
      (m : Values) (c : Client Net D)
      → post w m c
        ≡ (let (r, c') = post w m (record c { multi = none }) in (r, record c' { multi = c.multi }))
  unfolding post
  post_beside m c = ground arith

  conclude_beside :
      (q : Option (List (Request D))) (r : (String × Option Error) × Client Net D)
      → conclude w ans (r.0, record r.1 { multi = q })
        ≡ (let x = conclude w ans r in (x.0, record x.1 { multi = q }))
  unfolding conclude
  conclude_beside q ((body, none), c) = refl
  conclude_beside q ((body, some e), c) = refl

  communicate_beside :
      (m : Values) (c : Client Net D) → communicate w m ans c ≡ beside_queue (communicate w m ans) c
  unfolding communicate
  communicate_beside m c =
      ap (conclude w ans) (post_beside (with_key c.api_key m) c)
      ∙ conclude_beside c.multi (post w (with_key c.api_key m) (record c { multi = none }))

  finish_beside :
      (r : Option Error × Values) (c : Client Net D)
      → finish_merged w r ans c ≡ beside_queue (finish_merged w r ans) c
  unfolding finish_merged
  finish_beside (some e, m) c = refl
  finish_beside (none, m) c = communicate_beside m c

  request_beside :
      (r : Option Error × Values) (c : Client Net D)
      → finish_request w r extras ans c ≡ beside_queue (finish_request w r extras ans) c
  unfolding finish_request
  request_beside (some e, m) c = refl
  request_beside (none, m) c = finish_beside (merge_url_values (with_target c.target m) extras) c

  unqueued :
      (action : String) (m : Values) (element : Value D) (c : Client Net D)
      → is_queued action ≡ false
      → type_config w action m element extras ans c ≡ send_config w action m element extras ans c
  unfolding type_config
  unqueued action m element c h = ground (arith, h)

  -- A call that is none of the three that write is sent at once, whether there is a queue or not: it
  -- returns and leaves what it would without the queue, and the queue stays as it is.
  pub type_config_of_other :
      (action : String) (m : Values) (element : Value D) (c : Client Net D)
      → is_queued action ≡ false
      → type_config w action m element extras ans c
        ≡ beside_queue (type_config w action m element extras ans) c
  unfolding send_config
  type_config_of_other action m element c h =
      unqueued action m element c h
      ∙ request_beside _ c
      ∙ ap (λ (x : Reply Ans × Client Net D). (x.0, record x.1 { multi = c.multi }))
          (sym (unqueued action m element (record c { multi = none }) h))
