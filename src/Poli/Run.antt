-- ===== src/Poli/Run.antt =====
-- How a function runs that calls itself, on fuel: `Set` of the packages of poli/.
use pango.Base.{List, Option, none, some}

-- It returns, it panics, or its fuel is spent and it is still calling itself, on rules of type E and in
-- a state of the client.
pub data Run (E S A : Type 0) : Type 0 where
  returned : A → Run E S A
  panicked : Run E S A
  calling : List E → S → Run E S A

-- What may panic, but does not call it.
abbrev pub ran : {E S A : Type 0} → Option A → Run E S A
ran none = panicked
ran (some a) = returned a

abbrev pub and_then : {E S A B : Type 0} → Run E S A → (A → Run E S B) → Run E S B
and_then (returned a) f = f a
and_then panicked f = panicked
and_then (calling es s) f = calling es s
