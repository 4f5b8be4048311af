-- ===== src/Vocabulary/Schedule/Parse/Wire.antt =====
-- `_parse_term` of runstate/vocabulary/schedule.py and the wire shape of a term.
use runstate.Prelude.{
  ℕ, suc, ◌≤◌, ◌≡◌, refl, ◌∙◌, true, Option, none, List, [], ◌∷◌, ◌++◌, arith, ◌>>=◌, ok,
}
use runstate.Prelude.Int.{pos}
use runstate.Json.{Number, Json, Items, int, float, list, obj, nil, cons, field, end}
use runstate.Vocabulary.Checks.{zero_le}
use runstate.Vocabulary.Coordinate.{Counted, stream, commits, names_stream, atom, max_count}
use runstate.Vocabulary.Coordinate.Atom.{IsTarget}
use runstate.Vocabulary.Schedule.{
  Atom, progress, elapsed, fired, Term, leaf, any_of, all_of, Terms, last, more,
}
use runstate.Vocabulary.Schedule.Parse.{Step, key, index, NoCount, parse_term, parse_items}

module _ {F : Type 0} where
  -- The wire dict of a term.
  unfoldable mutual
    unfolding atom

    pub wire : Term F → Json F
    wire (leaf (progress t)) = obj (atom t)
    wire (leaf (elapsed s)) = obj (field "time_seconds" (float s) end)
    wire (leaf (fired n)) = obj (field "count" (int (pos n)) end)
    wire (any_of ts) = obj (field "any" (list (wire_items ts)) end)
    wire (all_of ts) = obj (field "all" (list (wire_items ts)) end)

    pub wire_items : Terms F → Items F
    wire_items (last t) = cons (wire t) nil
    wire_items (more t ts) = cons (wire t) (wire_items ts)

module _ {F : Type 0} ⦃num : Number F⦄ where
  -- What the constructors of a term's atoms admit; a count atom only where one is.
  abbrev pub IsAtom : Option NoCount → Atom F → Type 0
  IsAtom no_count (progress t) = IsTarget t
  IsAtom no_count (elapsed s) = zero_le s ≡ true
  IsAtom no_count (fired n) = no_count ≡ none

  abbrev mutual
    pub IsTerm : Option NoCount → Term F → Type 0
    IsTerm no_count (leaf a) = IsAtom no_count a
    IsTerm no_count (any_of ts) = AreTerms no_count ts
    IsTerm no_count (all_of ts) = AreTerms no_count ts

    pub AreTerms : Option NoCount → Terms F → Type 0
    AreTerms no_count (last t) = IsTerm no_count t
    AreTerms no_count (more t ts) = IsTerm no_count t × AreTerms no_count ts

  parse-target :
      (path : List Step) (no_count : Option NoCount) (x : Counted) (n : ℕ)
      → names_stream x ≡ true
      → n ≤ max_count
      → parse_term {F = F} path no_count (obj (atom (record { x = x; n = n })))
        ≡ ok (leaf (progress (record { x = x; n = n })))
  unfolding parse_term atom
  parse-target path no_count (stream s) n h le = ground (arith, h)
  parse-target path no_count commits n h le = ground (arith, h)

  parse_items-more :
      (path : List Step) (no_count : Option NoCount) (i : ℕ) (j : Json F) (ts : Terms F)
      → parse_items path no_count i (cons j (wire_items ts)) ≡ (
          parse_term (path ++ index i ∷ []) no_count j >>= λ t.
          parse_items path no_count (suc i) (wire_items ts) >>= λ us. ok (more t us))
  unfolding parse_term wire
  parse_items-more path no_count i j (last t) = refl
  parse_items-more path no_count i j (more t ts) = refl

  mutual
    unfolding parse_term wire

    parse-wire :
        (path : List Step) (no_count : Option NoCount) (t : Term F)
        → IsTerm no_count t
        → parse_term path no_count (wire t) ≡ ok t
    parse-wire path no_count (leaf (progress t)) v =
        parse-target path no_count t.x t.n v.named v.bounded
    parse-wire path no_count (leaf (elapsed s)) v = ground (arith, v)
    parse-wire path no_count (leaf (fired n)) v = rw v refl
    parse-wire path no_count (any_of ts) v =
        rw (parse_items-wire (path ++ key "any" ∷ []) no_count 0 ts v) refl
    parse-wire path no_count (all_of ts) v =
        rw (parse_items-wire (path ++ key "all" ∷ []) no_count 0 ts v) refl

    parse_items-wire :
        (path : List Step) (no_count : Option NoCount) (i : ℕ) (ts : Terms F)
        → AreTerms no_count ts
        → parse_items path no_count i (wire_items ts) ≡ ok ts
    parse_items-wire path no_count i (last t) v =
        rw (parse-wire (path ++ index i ∷ []) no_count t v) refl
    parse_items-wire path no_count i (more t ts) v =
        parse_items-more path no_count i (wire t) ts
        ∙ rw
            (
              parse-wire (path ++ index i ∷ []) no_count t v.0,
              parse_items-wire path no_count (suc i) ts v.1,
            )
            refl

  -- Every term that the wire can carry parses back from its wire dict as itself, at any path and
  -- nested to any depth.
  pub parse_term-wire :
      (path : List Step) (no_count : Option NoCount) (t : Term F)
      → IsTerm no_count t
      → parse_term path no_count (wire t) ≡ ok t
  parse_term-wire path no_count t v = parse-wire path no_count t v
