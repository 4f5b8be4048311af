-- ===== src/Vocabulary/Schedule/Parse.antt =====
-- `parse_schedule`, `parse_stop_trigger` and `_parse_term` of runstate/vocabulary/schedule.py.
pub mod Wire
pub mod Refused
use runstate.Prelude.{
  ℕ, suc, String, Bool, not, ◌&&◌, ◌||◌, Option, none, some, List, [], ◌∷◌, ◌++◌, str_eq,
  if◌then◌else◌, Result, ◌>>=◌, ◌>>◌, ok, err,
}
use runstate.Json.{
  Number, Json, Items, Fields, null, bool, int, float, str, list, obj, nil, cons, field, end, get,
}
use runstate.Vocabulary.Checks.{has_key, only_keys, time_of, watermark_of}
use runstate.Vocabulary.Coordinate.{Target, Counted, stream, commits, make_target}
use runstate.Vocabulary.Schedule.{
  Atom, progress, elapsed, fired, Term, leaf, any_of, all_of, Terms, last, more, Schedule,
  admits_slots,
}

-- A step of the path that a message spells: `.key` or `[i]`.
pub data Step : Type 0 where
  key : String → Step
  index : ℕ → Step

-- Why a count atom is refused: `no_count`.
pub data NoCount : Type 0 where
  outside_until pure_demand_count : NoCount

-- What the message of a `MalformedSchedule` says of the key at its path.
pub data Reason : Type 0 where
  not_an_object null_term unknown_key stream_keys bad_stream not_one_key not_a_list bad_number :
      Reason
  only_until count_in_slot : Reason
  count_refused : NoCount → Reason

pub record MalformedSchedule : Type 0 where
  pub path : List Step
  pub reason : Reason

abbrev pub fail : {A : Type 0} → List Step → Reason → Result MalformedSchedule A
fail path reason = err (record { path = path; reason = reason })

abbrev pub is_combinator : String → Bool
is_combinator k = str_eq k "any" || str_eq k "all"

abbrev pub no_count_in : Bool → String → Option NoCount
no_count_in pure_demand k =
    if not (str_eq k "until")
    then some outside_until
    else if pure_demand
    then some pure_demand_count
    else none

module _ {F : Type 0} where
  -- `_built`: an atom whose constructor refuses its number.
  abbrev pub built : List Step → Option (Atom F) → Result MalformedSchedule (Term F)
  built path none = fail path bad_number
  built path (some a) = ok (leaf a)

  abbrev pub as_progress : Option Target → Option (Atom F)
  as_progress none = none
  as_progress (some t) = some (progress t)

  abbrev pub as_elapsed : Option F → Option (Atom F)
  as_elapsed none = none
  as_elapsed (some s) = some (elapsed s)

  abbrev pub as_fired : Option ℕ → Option (Atom F)
  as_fired none = none
  as_fired (some n) = some (fired n)

  -- The keys of a `{stream, n}` atom are there and no other.
  abbrev pub stream_target :
      List Step → String → Option (Json F) → Result MalformedSchedule (Term F)
  stream_target path s none = fail path stream_keys
  stream_target path s (some n) =
      built (path ++ key "n" ∷ []) (as_progress (make_target (stream s) n))

  abbrev pub stream_named :
      List Step → Option (Json F) → Option (Json F) → Result MalformedSchedule (Term F)
  stream_named path (some (str s)) n =
      if str_eq s "" then fail (path ++ key "stream" ∷ []) bad_stream else stream_target path s n
  stream_named path _ n = fail (path ++ key "stream" ∷ []) bad_stream

  unfoldable pub parse_stream : List Step → Fields F → Result MalformedSchedule (Term F)
  unfolding has_key only_keys make_target
  parse_stream path fs =
      if has_key "stream" fs && has_key "n" fs && only_keys ("stream" ∷ "n" ∷ []) fs
      then stream_named path (get "stream" fs) (get "n" fs)
      else fail path stream_keys

  abbrev pub combine : String → Terms F → Term F
  combine k ts = if str_eq k "any" then any_of ts else all_of ts

  abbrev pub counted_atom : List Step → Option NoCount → Json F → Result MalformedSchedule (Term F)
  counted_atom path none v = built path (as_fired (watermark_of v))
  counted_atom path (some why) v = fail path (count_refused why)

module _ {F : Type 0} ⦃num : Number F⦄ where
  -- The atoms of one key: `commits`, `time_seconds`, `count`.
  unfoldable pub parse_scalar :
      List Step → Option NoCount → String → Json F → Result MalformedSchedule (Term F)
  unfolding make_target time_of watermark_of
  parse_scalar path no_count k v =
      if str_eq k "commits"
      then built path (as_progress (make_target commits v))
      else if str_eq k "time_seconds"
      then built path (as_elapsed (time_of v))
      else if str_eq k "count"
      then counted_atom path no_count v
      else fail path unknown_key

  -- `parse_one` is what `_parse_term` does once the keys of `{stream, n}` are ruled out, and
  -- `parse_items` its comprehension over a list, `i` the index of the first.
  unfoldable mutual
    unfolding parse_stream parse_scalar

    pub parse_term : List Step → Option NoCount → Json F → Result MalformedSchedule (Term F)
    parse_term path no_count null = fail path null_term
    parse_term path no_count (obj fs) =
        if has_key "stream" fs || has_key "n" fs
        then parse_stream path fs
        else parse_one path no_count fs
    parse_term path no_count _ = fail path not_an_object

    pub parse_one : List Step → Option NoCount → Fields F → Result MalformedSchedule (Term F)
    parse_one path no_count (field k (list js) end) =
        let parts = parse_items (path ++ key k ∷ []) no_count 0 js in
        if is_combinator k
        then (parts >>= λ ts. ok (combine k ts))
        else parse_scalar (path ++ key k ∷ []) no_count k (list js)
    parse_one path no_count (field k v end) =
        if is_combinator k
        then fail (path ++ key k ∷ []) not_a_list
        else parse_scalar (path ++ key k ∷ []) no_count k v
    parse_one path no_count _ = fail path not_one_key

    pub parse_items : List Step → Option NoCount → ℕ → Items F → Result MalformedSchedule (Terms F)
    parse_items path no_count i nil = fail path not_a_list
    parse_items path no_count i (cons j nil) =
        parse_term (path ++ index i ∷ []) no_count j >>= λ t. ok (last t)
    parse_items path no_count i (cons j js) = parse_term (path ++ index i ∷ []) no_count j >>= λ t.
        parse_items path no_count (suc i) js >>= λ ts. ok (more t ts)

  abbrev pub wrap_some :
      Result MalformedSchedule (Term F) → Result MalformedSchedule (Option (Term F))
  wrap_some (ok t) = ok (some t)
  wrap_some (err x) = err x

  -- The function `slot` local to `parse_schedule`.
  unfoldable pub slot : Bool → Fields F → String → Result MalformedSchedule (Option (Term F))
  unfolding parse_term
  slot pure_demand body k = elim (get k body) [
    | none ↦ ok none
    | some j ↦
        if pure_demand && not (str_eq k "until")
        then fail (key k ∷ []) only_until
        else wrap_some (parse_term (key k ∷ []) (no_count_in pure_demand k) j)
  ]

  -- The constructor `Schedule`, which refuses a count atom outside `until`.
  unfoldable pub make_schedule : Schedule F → Result MalformedSchedule (Schedule F)
  unfolding admits_slots
  make_schedule s = if admits_slots s then ok s else fail [] count_in_slot

  unfoldable pub parse_schedule : Json F → Bool → Result MalformedSchedule (Schedule F)
  unfolding slot make_schedule only_keys
  parse_schedule (obj body) pure_demand =
      if only_keys ("from" ∷ "every" ∷ "until" ∷ []) body
      then (do
        f ← slot pure_demand body "from"
        e ← slot pure_demand body "every"
        u ← slot pure_demand body "until"
        make_schedule (record { from_ = f; every = e; until = u }))
      else fail [] unknown_key
  parse_schedule _ pure_demand = fail [] not_an_object

  -- `parse_stop_trigger`: only a `from`, and no count.
  unfoldable pub parse_stop_trigger : Json F → Result MalformedSchedule (Option (Term F))
  unfolding parse_term only_keys
  parse_stop_trigger (obj body) =
      if only_keys ("from" ∷ []) body
      then elim (get "from" body) [
        | none ↦ ok none
        | some j ↦ wrap_some (parse_term (key "from" ∷ []) (some outside_until) j)
      ]
      else fail [] unknown_key
  parse_stop_trigger _ = fail [] not_an_object
