-- ===== src/Mapper/Votes/Latest.antt =====
-- The steps of `getLatestCcVotes`: groups of votes by member, and the latest of a group.
pub mod PerMember
use package.text.Mathlib.Text.{◌==◌ as str_eq}
use cgov_api.Prelude.{
  [], ◌≤◌, ◌≡◌, ◌≢◌, ◌⊎◌, inl, inr, refl, sym, String, List, ◌∷◌, ◌++◌, false, Bool-cases, All,
  All-append, Has, Has-append_left, Has-append_right, Has-append_cases, eq_iff, arith,
}
use cgov_api.Mapper.Votes.{
  Vote, resolve_voter_id, get_vote_timestamp, Groups, push_vote, later, reduce_later,
}

-- The vote that `reduce` gives is one of the group, and no vote of the group is later.
reduce_later-Has : (v : Vote) (vs : List Vote) → Has (reduce_later v vs) (v ∷ vs)
unfolding reduce_later later
reduce_later-Has v [] = inl refl
reduce_later-Has v (w ∷ vs) = ground (arith, reduce_later-Has (later v w) vs)

reduce_later-latest :
    (v : Vote) (vs : List Vote)
    → All (λ w. get_vote_timestamp w ≤ get_vote_timestamp (reduce_later v vs)) (v ∷ vs)
unfolding reduce_later later
reduce_later-latest v [] = (omega arith, tt)
reduce_later-latest v (w ∷ vs) = ground (arith, reduce_later-latest (later v w) vs)

-- A group holds votes of its member.
abbrev IsGroup : String × List Vote → Type 0
IsGroup g = (g.1 ≢ []) × All (λ v. resolve_voter_id v ≡ g.0) g.1

abbrev Fresh : String → Groups → Type 0
Fresh k groups = All (λ g. g.0 ≢ k) groups

abbrev HasDistinctKeys : Groups → Type 0
HasDistinctKeys [] = Unit {0}
HasDistinctKeys ((k, _) ∷ groups) = Fresh k groups × HasDistinctKeys groups

abbrev InGroups : Vote → Groups → Type 0
InGroups v [] = ⊥
InGroups v ((_, votes) ∷ groups) = Has v votes ⊎ InGroups v groups

push_vote-Fresh :
    (j k : String) (v : Vote) (gs : Groups) → Fresh j gs → k ≢ j → Fresh j (push_vote k v gs)
unfolding push_vote
push_vote-Fresh j k v [] f ne = (ne, tt)
push_vote-Fresh j k v ((i, votes) ∷ gs) f ne = ground (arith, push_vote-Fresh j k v gs f.1 ne)

ne_of_test : (i k : String) → str_eq i k ≡ false → k ≢ i
ne_of_test i k h e = ground (arith, eq_iff i k)

push_vote-HasDistinctKeys :
    (k : String) (v : Vote) (gs : Groups) → HasDistinctKeys gs → HasDistinctKeys (push_vote k v gs)
unfolding push_vote
push_vote-HasDistinctKeys k v [] d = (tt, tt)
push_vote-HasDistinctKeys k v ((i, votes) ∷ gs) d = elim (Bool-cases (str_eq i k)) [
  | inl same ↦ rw same d
  | inr other ↦
      rw other
        (push_vote-Fresh i k v gs d.0 (ne_of_test i k other), push_vote-HasDistinctKeys k v gs d.1)
]

append-ne-nil : (vs : List Vote) (v : Vote) → vs ++ v ∷ [] ≢ []
append-ne-nil [] v = cc
append-ne-nil (w ∷ vs) v = cc

push_vote-IsGroup :
    (v : Vote) (gs : Groups) → All IsGroup gs → All IsGroup (push_vote (resolve_voter_id v) v gs)
unfolding push_vote
push_vote-IsGroup v [] h = (((λ e. cc), (refl, tt)), tt)
push_vote-IsGroup v ((i, votes) ∷ gs) h = elim (Bool-cases (str_eq i (resolve_voter_id v))) [
  | inl same ↦ rw same (
    (
      append-ne-nil votes v,
      All-append (λ w. resolve_voter_id w ≡ i) votes (v ∷ []) h.0.1
          (sym ((eq_iff i (resolve_voter_id v)).0 same), tt),
    ),
    h.1,
  )
  | inr other ↦ rw other (h.0, push_vote-IsGroup v gs h.1)
]

push_vote-InGroups_new : (k : String) (v : Vote) (gs : Groups) → InGroups v (push_vote k v gs)
unfolding push_vote
push_vote-InGroups_new k v [] = inl (inl refl)
push_vote-InGroups_new k v ((i, votes) ∷ gs) =
    ground (arith, push_vote-InGroups_new k v gs, Has-append_right v votes (v ∷ []) (inl refl))

push_vote-InGroups_old :
    (k : String) (v w : Vote) (gs : Groups) → InGroups w gs → InGroups w (push_vote k v gs)
unfolding push_vote
push_vote-InGroups_old k v w [] h = elim h [ ]
push_vote-InGroups_old k v w ((i, votes) ∷ gs) (inl h) =
    ground (arith, Has-append_left w votes (v ∷ []) h)
push_vote-InGroups_old k v w ((i, votes) ∷ gs) (inr h) =
    ground (arith, push_vote-InGroups_old k v w gs h)

-- Nothing else gets into a group.
push_vote-InGroups_inv :
    (k : String) (v w : Vote) (gs : Groups)
    → InGroups w (push_vote k v gs)
    → (w ≡ v) ⊎ InGroups w gs
unfolding push_vote
push_vote-InGroups_inv k v w [] (inl (inl e)) = inl e
push_vote-InGroups_inv k v w [] (inl (inr x)) = elim x [ ]
push_vote-InGroups_inv k v w [] (inr x) = elim x [ ]
push_vote-InGroups_inv k v w ((i, votes) ∷ gs) h = elim (Bool-cases (str_eq i k)) [
  | inl same ↦ in_this (rw same at h)
  | inr other ↦ in_rest (push_vote-InGroups_inv k v w gs) (rw other at h)
]
  where
    in_new : Has w votes ⊎ Has w (v ∷ []) → (w ≡ v) ⊎ InGroups w ((i, votes) ∷ gs)
    in_new (inl old) = inr (inl old)
    in_new (inr (inl e)) = inl e
    in_new (inr (inr x)) = elim x [ ]

    in_this : Has w (votes ++ v ∷ []) ⊎ InGroups w gs → (w ≡ v) ⊎ InGroups w ((i, votes) ∷ gs)
    in_this (inl a) = in_new (Has-append_cases w votes (v ∷ []) a)
    in_this (inr b) = inr (inr b)

    in_rest :
        (InGroups w (push_vote k v gs) → (w ≡ v) ⊎ InGroups w gs)
        → Has w votes ⊎ InGroups w (push_vote k v gs)
        → (w ≡ v) ⊎ InGroups w ((i, votes) ∷ gs)
    in_rest ih (inl a) = inr (inl a)
    in_rest ih (inr b) = ground (arith, ih b)
