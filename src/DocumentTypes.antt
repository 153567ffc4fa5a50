-- ===== src/DocumentTypes.antt =====
-- apps/core/document_types.py: the types that a document is given, with its main type.
use udm_doctrack.Base.{
  ℕ, Bool, true, not, ◌&&◌, ◌||◌, Option, none, some, List, [], ◌∷◌, ◌==◌, if◌then◌else◌, is_none,
  elem, exists, length, ltb, Outcome, success, guard, ◌>>◌, validation_error,
}

-- A row of the table of types.
pub record DocumentType : Type 0 where
  pub pk : ℕ
  pub is_active : Bool

-- `list({kind.pk: kind for kind in selected}.values())`: each key once, in order.
abbrev pub each_once : List ℕ → List ℕ → List ℕ
each_once seen [] = []
each_once seen (pk ∷ pks) =
    let known = each_once seen pks in
    let later = each_once (pk ∷ seen) pks in if elem pk seen then known else pk ∷ later

-- A row that is active, or that the document has already.
abbrev pub is_allowed : List DocumentType → List ℕ → ℕ → Bool
is_allowed types existing pk =
    exists (λ (t : DocumentType). (t.pk == pk) && (t.is_active || elem t.pk existing)) types

abbrev pub main_is_selected : Option ℕ → List ℕ → Bool
main_is_selected none selected = true
main_is_selected (some main) selected = elem main selected

abbrev pub main_or_first : Option ℕ → List ℕ → Option ℕ
main_or_first (some main) selected = some main
main_or_first none [] = none
main_or_first none (pk ∷ selected) = some pk

-- The types are given as the keys of rows, so the first check of the code, that each is a saved row,
-- is the one of the table.
unfoldable pub resolve_document_types :
    List DocumentType → List ℕ → Option ℕ → List ℕ → Outcome (List ℕ × Option ℕ)
resolve_document_types types selected main existing = do
  guard (not (exists (λ pk. not (is_allowed types existing pk)) (each_once [] selected)))
      validation_error
  guard (main_is_selected main (each_once [] selected)) validation_error
  guard (not (ltb 1 (length (each_once [] selected)) && is_none main)) validation_error
  success (each_once [] selected, main_or_first main (each_once [] selected))
