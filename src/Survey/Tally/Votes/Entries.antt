-- ===== src/Survey/Tally/Votes/Entries.antt =====
-- The map of `dedupeVotes`: its keys, where its votes come from, and which votes it stands for.
use package.text.Mathlib.Text.{◌==◌ as str_eq}
use cgov_api.Prelude.{
  [], subst, ◌≡◌, ◌≢◌, ◌⊎◌, inl, inr, refl, sym, false, Bool-cases, String, List, ◌∷◌, All, Has,
  arith, eq_iff,
}
use cgov_api.Prelude.Int.{pos, ltb_ℤ}
use cgov_api.Mapper.Numbers.{Double}
use cgov_api.Survey.Tally.Votes.{
  Runtime, SurveyTallyVote, voter_key, compare_votes, newer, LatestByVoter, put_latest,
  latest_by_voter,
}
use cgov_api.Survey.Tally.Votes.Order.{IsOrder}

abbrev pub FreshKey {ℓ} : {A : Type ℓ} → String → List (String × A) → Type 0
FreshKey k entries = All (λ e. e.0 ≢ k) entries

abbrev pub HasKeysApart {ℓ} : {A : Type ℓ} → List (String × A) → Type 0
HasKeysApart [] = Unit {0}
HasKeysApart ((k, _) ∷ entries) = FreshKey k entries × HasKeysApart entries

module _ (d : Double) (rt : Runtime d) where
  put_latest-FreshKey :
      (j k : String) (v : SurveyTallyVote d) (entries : LatestByVoter d)
      → FreshKey j entries
      → k ≢ j
      → FreshKey j (put_latest d rt k v entries)
  unfolding put_latest
  put_latest-FreshKey j k v [] f ne = (ne, tt)
  put_latest-FreshKey j k v ((i, w) ∷ entries) f ne =
      ground (arith, put_latest-FreshKey j k v entries f.1 ne)

  put_latest-HasKeysApart :
      (k : String) (v : SurveyTallyVote d) (entries : LatestByVoter d)
      → HasKeysApart entries
      → HasKeysApart (put_latest d rt k v entries)
  unfolding put_latest
  put_latest-HasKeysApart k v [] h = (tt, tt)
  put_latest-HasKeysApart k v ((i, w) ∷ entries) h = elim (Bool-cases (str_eq i k)) [
    | inl same ↦ rw same h
    | inr other ↦ rw other (
      put_latest-FreshKey i k v entries h.0 (λ e. ground (arith, eq_iff i k, e, other)),
      put_latest-HasKeysApart k v entries h.1,
    )
  ]

  newer-cases : (v w : SurveyTallyVote d) → (newer d rt v w ≡ v) ⊎ (newer d rt v w ≡ w)
  unfolding newer
  newer-cases v w = elim (Bool-cases (ltb_ℤ (pos 0) (compare_votes d rt v w))) [
    | inl e ↦ inl (rw e refl)
    | inr e ↦ inr (rw e refl)
  ]

  -- Each vote stands under its voter, and comes from the list.
  abbrev pub IsEntry : List (SurveyTallyVote d) → String × SurveyTallyVote d → Type 0
  IsEntry all (k, w) = (voter_key d w ≡ k) × Has w all

  newer-IsEntry :
      (all : List (SurveyTallyVote d)) (k : String) (v w : SurveyTallyVote d)
      → IsEntry all (k, v)
      → IsEntry all (k, w)
      → IsEntry all (k, newer d rt v w)
  newer-IsEntry all k v w hv hw = elim (newer-cases v w) [
    | inl e ↦ subst (λ u. IsEntry all (k, u)) (sym e) hv
    | inr e ↦ subst (λ u. IsEntry all (k, u)) (sym e) hw
  ]

  put_latest-IsEntry :
      (all : List (SurveyTallyVote d)) (k : String) (v : SurveyTallyVote d)
      (entries : LatestByVoter d)
      → IsEntry all (k, v)
      → All (IsEntry all) entries
      → All (IsEntry all) (put_latest d rt k v entries)
  unfolding put_latest
  put_latest-IsEntry all k v [] hv h = (hv, tt)
  put_latest-IsEntry all k v ((i, w) ∷ entries) hv h = elim (Bool-cases (str_eq i k)) [
    | inl same ↦
        let e = (eq_iff i k).0 same in
        rw same (newer-IsEntry all i v w (subst (λ j. IsEntry all (j, v)) (sym e) hv) h.0, h.1)
    | inr other ↦ rw other (h.0, put_latest-IsEntry all k v entries hv h.1)
  ]

  abbrev pub IsNotAfter : SurveyTallyVote d → SurveyTallyVote d → Type 0
  IsNotAfter v w = ltb_ℤ (pos 0) (compare_votes d rt v w) ≡ false

  -- The entry of the voter holds a vote that this one does not come after.
  abbrev pub IsCovered : SurveyTallyVote d → LatestByVoter d → Type 0
  IsCovered v [] = ⊥
  IsCovered v ((k, w) ∷ entries) = ((k ≡ voter_key d v) × IsNotAfter v w) ⊎ IsCovered v entries

  module _ (order : IsOrder (compare_votes d rt)) where
    IsNotAfter-self : (v : SurveyTallyVote d) → IsNotAfter v v
    IsNotAfter-self v = elim (Bool-cases (ltb_ℤ (pos 0) (compare_votes d rt v v))) [
      | inl e ↦ order.one_way v v e
      | inr e ↦ e
    ]

    IsNotAfter-newer :
        (v w : SurveyTallyVote d) → IsNotAfter v (newer d rt v w) × IsNotAfter w (newer d rt v w)
    unfolding newer
    IsNotAfter-newer v w = elim (Bool-cases (ltb_ℤ (pos 0) (compare_votes d rt v w))) [
      | inl e ↦ rw e (IsNotAfter-self v, order.one_way v w e)
      | inr e ↦ rw e (e, IsNotAfter-self w)
    ]

    put_latest-IsCovered_new :
        (v : SurveyTallyVote d) (entries : LatestByVoter d)
        → IsCovered v (put_latest d rt (voter_key d v) v entries)
    unfolding put_latest
    put_latest-IsCovered_new v [] = inl (refl, IsNotAfter-self v)
    put_latest-IsCovered_new v ((i, w) ∷ entries) = elim (Bool-cases (str_eq i (voter_key d v))) [
      | inl same ↦ rw same (inl ((eq_iff i (voter_key d v)).0 same, (IsNotAfter-newer v w).0))
      | inr other ↦ rw other (inr (put_latest-IsCovered_new v entries))
    ]

    put_latest-IsCovered :
        (u v : SurveyTallyVote d) (k : String) (entries : LatestByVoter d)
        → IsCovered u entries
        → IsCovered u (put_latest d rt k v entries)
    unfolding put_latest
    put_latest-IsCovered u v k [] h = absurd h
    put_latest-IsCovered u v k ((i, w) ∷ entries) h = elim (Bool-cases (str_eq i k)) [
      | inl same ↦ rw same (elim h [
        | inl here ↦
            inl (here.0, order.transitive u w (newer d rt v w) here.1 (IsNotAfter-newer v w).1)
        | inr there ↦ inr there
      ])
      | inr other ↦ rw other (elim h [
        | inl here ↦ inl here
        | inr there ↦ inr (put_latest-IsCovered u v k entries there)
      ])
    ]

    pub latest-IsCovered :
        (u : SurveyTallyVote d) (votes : List (SurveyTallyVote d)) (entries : LatestByVoter d)
        → IsCovered u entries ⊎ Has u votes
        → IsCovered u (latest_by_voter d rt votes entries)
    unfolding latest_by_voter
    latest-IsCovered u [] entries (inl h) = h
    latest-IsCovered u [] entries (inr h) = absurd h
    latest-IsCovered u (v ∷ votes) entries (inl h) =
        latest-IsCovered u votes _ (inl (put_latest-IsCovered u v (voter_key d v) entries h))
    latest-IsCovered u (v ∷ votes) entries (inr (inl e)) = latest-IsCovered u votes _ (
        inl (
          subst (λ x. IsCovered x (put_latest d rt (voter_key d v) v entries)) (sym e)
            (put_latest-IsCovered_new v entries)))
    latest-IsCovered u (v ∷ votes) entries (inr (inr h)) = latest-IsCovered u votes _ (inr h)

  pub latest-IsEntry :
      (all votes : List (SurveyTallyVote d)) (entries : LatestByVoter d)
      → All (λ v. Has v all) votes
      → All (IsEntry all) entries
      → HasKeysApart entries
      → All (IsEntry all) (latest_by_voter d rt votes entries)
        × HasKeysApart (latest_by_voter d rt votes entries)
  unfolding latest_by_voter
  latest-IsEntry all [] entries from h apart = (h, apart)
  latest-IsEntry all (v ∷ votes) entries from h apart =
      latest-IsEntry all votes (put_latest d rt (voter_key d v) v entries) from.1
        (put_latest-IsEntry all (voter_key d v) v entries (refl, from.0) h)
        (put_latest-HasKeysApart (voter_key d v) v entries apart)
