-- ===== src/Vocabulary/Payloads/RoundTrip.antt =====
-- `Commit(**body)` and `Stopped(**body)` of runstate/vocabulary/payloads.py, and their dicts.
use runstate.Prelude.{
  ◌≤◌, ◌≡◌, ◌↔◌, true, arith, Ensures, bind-Ensures, ensured, Ensures-any, ok, returns,
}
use runstate.Json.{Number, Fields}
use runstate.Vocabulary.Checks.{
  takes, check, seq_of, parent_of, watermark_of, seqs_of, names_of, time_of, zero_le,
}
use runstate.Vocabulary.Payloads.Lifecycle.{
  Commit, Stopped, commit_keys, parse_commit, parse_stopped,
}
use runstate.Vocabulary.Payloads.Exits.{
  IsStopped, IsStoppedBody, IsStoppedBody-Ensures, parse_stopped-body, exit_checks-coherent,
}
use runstate.Vocabulary.Payloads.Wire.{commit_dict, stopped_dict}
use runstate.Vocabulary.Payloads.Valid.{
  IsParent, IsSeqs, IsNames, seq_of_sound, parent_of-sound, seqs_of_sound, names_of-sound,
  time_of_sound, check-Ensures, seq_of-seq_json, parent_of-parent_json, seqs_of-seq_array,
  values_of-values_json, names_of-name_array, watermark_of-seq_json, error_of-error_json,
  bool_of-bool, time_of-float,
}

module _ {F : Type 0} ⦃num : Number F⦄ where
  pub record IsCommit (c : Commit F) : Type 0 where
    pub claim : 1 ≤ c.claim_seq
    pub parent : IsParent c.parent
    pub values : IsSeqs c.values
    pub fired : IsNames c.fired
    pub expired : IsNames c.expired
    pub time : zero_le c.t ≡ true

  IsCommit-Ensures : (body : Fields F) → Ensures IsCommit (parse_commit body)
  unfolding parse_commit
  IsCommit-Ensures body = bind-Ensures (Ensures-any (takes commit_keys body)) λ _ _.
      bind-Ensures (check-Ensures _ "claim_seq" seq_of body seq_of_sound) λ c claim.
        bind-Ensures (Ensures-any (check "consumed_seq" watermark_of body)) λ w _.
          bind-Ensures (check-Ensures _ "parent" parent_of body parent_of-sound) λ p parent.
            bind-Ensures (check-Ensures _ "values" seqs_of body seqs_of_sound) λ vs values.
              bind-Ensures (check-Ensures _ "fired" names_of body names_of-sound) λ f fired.
                bind-Ensures (check-Ensures _ "expired" names_of body names_of-sound) λ x expired.
                  bind-Ensures (check-Ensures _ "t" time_of body time_of_sound) λ t time.
                    returns (record {
                      claim = claim;
                      parent = parent;
                      values = values;
                      fired = fired;
                      expired = expired;
                      time = time;
                    })

  -- A body that parses as a `Commit` is one that the schema admits: seqs of at least 1, unique values,
  -- unique non-empty names, and a clock of at least 0.
  pub parse_commit-IsCommit :
      (body : Fields F) (c : Commit F) → parse_commit body ≡ ok c → IsCommit c
  parse_commit-IsCommit body c h = ensured (IsCommit-Ensures body) h

  -- A valid `Commit` sent as its dict parses back as itself.
  pub parse_commit-commit_dict : (c : Commit F) → IsCommit c → parse_commit (commit_dict c) ≡ ok c
  unfolding parse_commit commit_dict
  parse_commit-commit_dict c v = ground (
    arith,
    seq_of-seq_json F c.claim_seq v.claim,
    watermark_of-seq_json F c.consumed_seq,
    parent_of-parent_json F c.parent v.parent,
    seqs_of-seq_array F c.values v.values,
    names_of-name_array F c.fired v.fired,
    names_of-name_array F c.expired v.expired,
    time_of-float c.t v.time,
  )

  -- A body parses as a `Stopped` exactly when it holds its nine fields and no other, each as the JSON
  -- of the parsed one, and they obey the schema, the three rules that relate fields included.
  pub parse_stopped-IsStopped :
      (body : Fields F) (s : Stopped F)
      → (parse_stopped body ≡ ok s) ↔ (IsStopped s × IsStoppedBody body s)
  parse_stopped-IsStopped body s =
      (ensured (IsStoppedBody-Ensures body), λ h. parse_stopped-body body s h.0 h.1)

  -- A valid `Stopped` sent as its dict parses back as itself.
  pub parse_stopped-stopped_dict :
      (s : Stopped F) → IsStopped s → parse_stopped (stopped_dict s) ≡ ok s
  unfolding parse_stopped stopped_dict
  parse_stopped-stopped_dict s v = ground (
    arith,
    bool_of-bool F s.completed,
    error_of-error_json F s.error,
    seq_of-seq_json F s.claim_seq v.claim,
    names_of-name_array F s.honored v.honored,
    parent_of-parent_json F s.parent v.parent,
    values_of-values_json F s.values v.values,
    names_of-name_array F s.fired v.fired,
    names_of-name_array F s.expired v.expired,
    time_of-float s.t v.time,
    exit_checks-coherent s v,
  )
