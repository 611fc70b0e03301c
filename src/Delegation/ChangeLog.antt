-- ===== src/Delegation/ChangeLog.antt =====
-- The log of changes of DRep, and the history that settles a conflict between candidates.
use cgov_api.Prelude.{
  [], ◌≡◌, ◌≢◌, inl, inr, refl, ap, ◌∙◌, Bool-cases, true, false, Option, none, some, String, List,
  ◌∷◌, ◌++◌, filter, arith, eq_iff, ◌or_else◌, ◌or_maybe◌,
}
use cgov_api.Delegation.{
  AccountUpdate, extract_delegated_drep_id, truthy_id, is_delegation, Change, LogState, note_drep,
  same_drep, log_entry, log_entries, build_drep_change_log_for_stake, last_named,
  latest_delegated_drep, sort_account_updates, empty_log, drep_of_entry, drep_of_transaction,
}

-- The changes lead from one DRep to another, each from the one that the change before it led to, and
-- each to a DRep that differs from it and has a name.
pub IsChain : Option String → List Change → Option String → Type 0
IsChain first [] last = first ≡ last
IsChain first (c ∷ cs) last =
    (c.from_drep_id ≡ first or_else "")
    × (c.to_drep_id ≢ "")
    × (some c.to_drep_id ≢ first)
    × IsChain (some c.to_drep_id) cs last

IsChain-append :
    (first last : Option String) (cs : List Change) (c : Change)
    → IsChain first cs last
    → c.from_drep_id ≡ last or_else ""
    → c.to_drep_id ≢ ""
    → some c.to_drep_id ≢ last
    → IsChain first (cs ++ c ∷ []) (some c.to_drep_id)
unfolding IsChain
IsChain-append first last [] c h from named differs = rw h (from, named, differs, refl)
IsChain-append first last (x ∷ cs) c h from named differs =
    (h.0, h.1, h.2, IsChain-append (some x.to_drep_id) last cs c h.3 from named differs)

truthy_id-named : (o : Option String) (id : String) → truthy_id o ≡ some id → id ≢ ""
unfolding truthy_id
truthy_id-named none id e = ground arith
truthy_id-named (some s) id e = ground (arith, eq_iff s "")

same_drep-false : (id : String) (last : Option String) → same_drep id last ≡ false → some id ≢ last
unfolding same_drep
same_drep-false id none e = ground arith
same_drep-false id (some s) e = ground (arith, eq_iff id s)

same_drep-true : (id : String) (last : Option String) → same_drep id last ≡ true → last ≡ some id
unfolding same_drep
same_drep-true id none e = ground arith
same_drep-true id (some s) e = ground (arith, eq_iff id s)

module _ (stake : String) (get : String → Option String) where
  note_drep-IsChain :
      (e : AccountUpdate) (o : Option String) (s : LogState)
      → ((id : String) → o ≡ some id → id ≢ "")
      → IsChain none s.changes s.last_drep_id
      → let t = note_drep stake e o s in IsChain none t.changes t.last_drep_id
  unfolding note_drep
  note_drep-IsChain e none s named h = h
  note_drep-IsChain e (some id) s named h = elim (Bool-cases (same_drep id s.last_drep_id)) [
    | inl same ↦ rw same h
    | inr new ↦ rw new (
        IsChain-append none s.last_drep_id s.changes _ h refl (named id refl)
          (same_drep-false id s.last_drep_id new))
  ]

  log_entry-IsChain :
      (e : AccountUpdate) (s : LogState)
      → IsChain none s.changes s.last_drep_id
      → let t = log_entry stake get e s in IsChain none t.changes t.last_drep_id
  unfolding log_entry
  log_entry-IsChain e s h = elim (Bool-cases (is_delegation e)) [
    | inl drep ↦ rw drep (
        note_drep-IsChain e (truthy_id (drep_of_entry get e)) s
          (truthy_id-named (drep_of_entry get e)) h)
    | inr other ↦ rw other h
  ]

  log_entries-IsChain :
      (es : List AccountUpdate) (s : LogState)
      → IsChain none s.changes s.last_drep_id
      → let t = log_entries stake get es s in IsChain none t.changes t.last_drep_id
  unfolding log_entries
  log_entries-IsChain [] s h = h
  log_entries-IsChain (e ∷ es) s h =
      log_entries-IsChain es (log_entry stake get e s) (log_entry-IsChain e s h)

  -- The log is a chain from no DRep to the latest one: each change starts from the DRep that the
  -- change before it led to, and goes to another one, which is named.
  pub change_log-IsChain :
      (entries : List AccountUpdate)
      → let log = build_drep_change_log_for_stake stake entries get in
        IsChain none log.changes log.last_drep_id
  unfolding build_drep_change_log_for_stake IsChain
  change_log-IsChain entries = log_entries-IsChain (sort_account_updates entries) empty_log refl

or_none : (o : Option String) → (o or_maybe none) ≡ o
or_none none = refl
or_none (some a) = refl

no_transaction : (hash : Option String) → drep_of_transaction (λ _. none) hash ≡ none
unfolding drep_of_transaction
no_transaction none = refl
no_transaction (some hash) = ground arith

drep_of_entry_alone :
    (e : AccountUpdate) → drep_of_entry (λ _. none) e ≡ extract_delegated_drep_id e
unfolding drep_of_entry
drep_of_entry_alone e = rw (no_transaction e.tx_hash) (or_none (extract_delegated_drep_id e))

note_drep_last :
    (stake : String) (e : AccountUpdate) (o : Option String) (s : LogState)
    → (note_drep stake e o s).last_drep_id ≡ (o or_maybe s.last_drep_id)
unfolding note_drep
note_drep_last stake e none s = refl
note_drep_last stake e (some id) s = elim (Bool-cases (same_drep id s.last_drep_id)) [
  | inl same ↦ rw same (same_drep-true id s.last_drep_id same)
  | inr new ↦ rw new refl
]

log_entry_last :
    (stake : String) (e : AccountUpdate) (es : List AccountUpdate) (s : LogState)
    → last_named (log_entry stake (λ _. none) e s).last_drep_id (filter is_delegation es)
      ≡ last_named s.last_drep_id (filter is_delegation (e ∷ es))
unfolding log_entry last_named
log_entry_last stake e es s = elim (Bool-cases (is_delegation e)) [
  | inl drep ↦ rw drep (
      ap (λ l. last_named l (filter is_delegation es))
        (note_drep_last stake e (truthy_id (drep_of_entry (λ _. none) e)) s
          ∙ ap (λ d. truthy_id d or_maybe s.last_drep_id) (drep_of_entry_alone e)))
  | inr other ↦ rw other refl
]

log_entries_last :
    (stake : String) (es : List AccountUpdate) (s : LogState)
    → (log_entries stake (λ _. none) es s).last_drep_id
      ≡ last_named s.last_drep_id (filter is_delegation es)
unfolding log_entries last_named
log_entries_last stake [] s = refl
log_entries_last stake (e ∷ es) s =
    log_entries_last stake es (log_entry stake (λ _. none) e s) ∙ log_entry_last stake e es s

-- Without transactions to look up, the log ends at the DRep by which the history settles a conflict
-- between candidates.
pub log_agrees_with_history :
    (stake : String) (entries : List AccountUpdate)
    → (build_drep_change_log_for_stake stake entries (λ _. none)).last_drep_id
      ≡ latest_delegated_drep entries
unfolding build_drep_change_log_for_stake latest_delegated_drep
log_agrees_with_history stake entries =
    log_entries_last stake (sort_account_updates entries) empty_log
