-- ===== src/Mapper/Votes/Latest/PerMember.antt =====
-- `getLatestCcVotes` as a whole.
use cgov_api.Prelude.{
  [], ◌≤◌, ◌≡◌, ◌≢◌, ◌⊎◌, inl, inr, refl, sym, ◌∙◌, subst, String, List, ◌∷◌, ◌++◌, All, All-append,
  All-Has, All-map, Has, Has-append_left, Has-append_right, Has-append_cases, arith,
}
use cgov_api.Mapper.Votes.{
  Vote, resolve_voter_id, get_vote_timestamp, Groups, push_vote, group_votes, reduce_later,
  push_latest, latest_of_groups, get_latest_cc_votes,
}
use cgov_api.Mapper.Votes.Latest.{
  reduce_later-Has, reduce_later-latest, IsGroup, Fresh, HasDistinctKeys, InGroups,
  push_vote-HasDistinctKeys, push_vote-IsGroup, push_vote-InGroups_new, push_vote-InGroups_old,
  push_vote-InGroups_inv,
}

group_votes-HasDistinctKeys :
    (gs : Groups) (vs : List Vote) → HasDistinctKeys gs → HasDistinctKeys (group_votes gs vs)
unfolding group_votes
group_votes-HasDistinctKeys gs [] d = d
group_votes-HasDistinctKeys gs (v ∷ vs) d =
    group_votes-HasDistinctKeys (push_vote (resolve_voter_id v) v gs) vs
      (push_vote-HasDistinctKeys (resolve_voter_id v) v gs d)

group_votes-IsGroup :
    (gs : Groups) (vs : List Vote) → All IsGroup gs → All IsGroup (group_votes gs vs)
unfolding group_votes
group_votes-IsGroup gs [] h = h
group_votes-IsGroup gs (v ∷ vs) h =
    group_votes-IsGroup (push_vote (resolve_voter_id v) v gs) vs (push_vote-IsGroup v gs h)

group_votes-InGroups :
    (w : Vote) (gs : Groups) (vs : List Vote)
    → InGroups w gs ⊎ Has w vs
    → InGroups w (group_votes gs vs)
unfolding group_votes
group_votes-InGroups w gs [] (inl h) = h
group_votes-InGroups w gs [] (inr x) = elim x [ ]
group_votes-InGroups w gs (v ∷ vs) (inl h) =
    group_votes-InGroups w (push_vote (resolve_voter_id v) v gs) vs
      (inl (push_vote-InGroups_old (resolve_voter_id v) v w gs h))
group_votes-InGroups w gs (v ∷ vs) (inr (inl e)) =
    group_votes-InGroups w (push_vote (resolve_voter_id v) v gs) vs (
      inl (
        subst (λ u. InGroups u (push_vote (resolve_voter_id v) v gs)) (sym e)
          (push_vote-InGroups_new (resolve_voter_id v) v gs)))
group_votes-InGroups w gs (v ∷ vs) (inr (inr h)) =
    group_votes-InGroups w (push_vote (resolve_voter_id v) v gs) vs (inr h)

group_votes-InGroups_inv :
    (w : Vote) (gs : Groups) (vs : List Vote)
    → InGroups w (group_votes gs vs)
    → InGroups w gs ⊎ Has w vs
unfolding group_votes
group_votes-InGroups_inv w gs [] h = inl h
group_votes-InGroups_inv w gs (v ∷ vs) h = ground (
  arith,
  group_votes-InGroups_inv w (push_vote (resolve_voter_id v) v gs) vs h,
  push_vote-InGroups_inv (resolve_voter_id v) v w gs,
)

abbrev member : Vote → String
member = resolve_voter_id

abbrev pub HasDistinctMembers : List Vote → Type 0
HasDistinctMembers [] = Unit {0}
HasDistinctMembers (v ∷ vs) =
    All (λ w. resolve_voter_id w ≢ resolve_voter_id v) vs × HasDistinctMembers vs

push_latest-append :
    (v : Vote) (vs acc : List Vote) → push_latest (v ∷ vs) acc ≡ acc ++ reduce_later v vs ∷ []
unfolding push_latest reduce_later
push_latest-append v [] acc = refl
push_latest-append v (w ∷ vs) acc = refl

-- What a group adds to the list: a vote of the group's member, the latest one.
record IsPick (votes : List Vote) (u : Vote) : Type 0 where
  chosen : Has u votes
  latest : All (λ w. get_vote_timestamp w ≤ get_vote_timestamp u) votes

push_latest-IsPick :
    (votes acc : List Vote)
    → votes ≢ []
    → (u : Vote) × (push_latest votes acc ≡ acc ++ u ∷ []) × IsPick votes u
push_latest-IsPick [] acc ne = absurd (ne refl)
push_latest-IsPick (v ∷ vs) acc ne = (
  reduce_later v vs,
  push_latest-append v vs acc,
  record { chosen = reduce_later-Has v vs; latest = reduce_later-latest v vs },
)

HasDistinctMembers-append :
    (vs : List Vote) (u : Vote)
    → HasDistinctMembers vs
    → All (λ w. resolve_voter_id w ≢ resolve_voter_id u) vs
    → HasDistinctMembers (vs ++ u ∷ [])
HasDistinctMembers-append [] u d f = (tt, tt)
HasDistinctMembers-append (v ∷ vs) u (a, d) (ne, f) = (
  All-append (λ w. resolve_voter_id w ≢ resolve_voter_id v) vs (u ∷ []) a ((λ e. ne (sym e)), tt),
  HasDistinctMembers-append vs u d f,
)

-- The vote `u` speaks for the vote `w`: the same member, and not earlier.
abbrev pub SpeaksFor : Vote → Vote → Type 0
SpeaksFor u w =
    (resolve_voter_id u ≡ resolve_voter_id w) × (get_vote_timestamp w ≤ get_vote_timestamp u)

latest_of_groups-keeps :
    (u : Vote) (gs : Groups) (acc : List Vote)
    → All IsGroup gs
    → Has u acc
    → Has u (latest_of_groups gs acc)
unfolding latest_of_groups
latest_of_groups-keeps u [] acc h a = a
latest_of_groups-keeps u ((k, votes) ∷ gs) acc h a =
    let (t, e, _) = push_latest-IsPick votes acc h.0.0 in
    latest_of_groups-keeps u gs (push_latest votes acc) h.1
      (rw e (Has-append_left u acc (t ∷ []) a))

latest_of_groups-covers :
    (w : Vote) (gs : Groups) (acc : List Vote)
    → All IsGroup gs
    → InGroups w gs
    → (u : Vote) × Has u (latest_of_groups gs acc) × SpeaksFor u w
unfolding latest_of_groups
latest_of_groups-covers w [] acc h a = elim a [ ]
latest_of_groups-covers w ((k, votes) ∷ gs) acc h (inl a) =
    let (u, e, pick) = push_latest-IsPick votes acc h.0.0 in
    let same =
      λ (x : Vote) (m : Has x votes). All-Has (λ v. resolve_voter_id v ≡ k) x votes h.0.1 m in
    (
      u,
      latest_of_groups-keeps u gs (push_latest votes acc) h.1
          (rw e (Has-append_right u acc (u ∷ []) (inl refl))),
      (
        same u pick.chosen ∙ sym (same w a),
        All-Has (λ v. get_vote_timestamp v ≤ get_vote_timestamp u) w votes pick.latest a,
      ),
    )
latest_of_groups-covers w ((k, votes) ∷ gs) acc h (inr a) =
    latest_of_groups-covers w gs (push_latest votes acc) h.1 a

latest_of_groups-from :
    (u : Vote) (gs : Groups) (acc : List Vote)
    → All IsGroup gs
    → Has u (latest_of_groups gs acc)
    → Has u acc ⊎ InGroups u gs
unfolding latest_of_groups
latest_of_groups-from u [] acc h a = inl a
latest_of_groups-from u ((k, votes) ∷ gs) acc h a =
    let (t, e, pick) = push_latest-IsPick votes acc h.0.0 in
    sort t pick.chosen e (latest_of_groups-from u gs (push_latest votes acc) h.1 a)
  where
    old_or_new :
        (t : Vote)
        → Has t votes
        → Has u acc ⊎ Has u (t ∷ [])
        → Has u acc ⊎ InGroups u ((k, votes) ∷ gs)
    old_or_new t m (inl b) = inl b
    old_or_new t m (inr (inl b)) = inr (inl (subst (λ x. Has x votes) (sym b) m))
    old_or_new t m (inr (inr x)) = elim x [ ]

    sort :
        (t : Vote)
        → Has t votes
        → push_latest votes acc ≡ acc ++ t ∷ []
        → Has u (push_latest votes acc) ⊎ InGroups u gs
        → Has u acc ⊎ InGroups u ((k, votes) ∷ gs)
    sort t m e (inl b) = old_or_new t m (Has-append_cases u acc (t ∷ []) (rw e at b))
    sort t m e (inr b) = inr (inr b)

latest_of_groups-distinct :
    (gs : Groups) (acc : List Vote)
    → All IsGroup gs
    → HasDistinctKeys gs
    → HasDistinctMembers acc
    → All (λ w. Fresh (resolve_voter_id w) gs) acc
    → HasDistinctMembers (latest_of_groups gs acc)
unfolding latest_of_groups
latest_of_groups-distinct [] acc h d a f = a
latest_of_groups-distinct ((k, votes) ∷ gs) acc h d a f =
    let (u, e, pick) = push_latest-IsPick votes acc h.0.0 in
    let is_k : resolve_voter_id u ≡ k =
      All-Has (λ v. resolve_voter_id v ≡ k) u votes h.0.1 pick.chosen in
    latest_of_groups-distinct gs (push_latest votes acc) h.1 d.1
      (rw e (
        HasDistinctMembers-append acc u a (
          All-map (λ w. Fresh (resolve_voter_id w) ((k, votes) ∷ gs))
            (λ w. resolve_voter_id w ≢ resolve_voter_id u) (λ w fw same. fw.0 (sym (same ∙ is_k)))
            acc f)))
      (rw e (
        All-append (λ w. Fresh (resolve_voter_id w) gs) acc (u ∷ [])
          (All-map (λ w. Fresh (resolve_voter_id w) ((k, votes) ∷ gs))
            (λ w. Fresh (resolve_voter_id w) gs) (λ w fw. fw.1) acc f)
          (subst (λ i. Fresh i gs) (sym is_k) d.0, tt)))

-- Of the votes, at most one is kept for each member; each kept vote was cast; and for each vote cast
-- the same member's vote is kept that is not earlier.
pub get_latest_cc_votes_lem :
    (votes : List Vote)
    → HasDistinctMembers (get_latest_cc_votes votes)
      × ((u : Vote) → Has u (get_latest_cc_votes votes) → Has u votes)
      × ((w : Vote) → Has w votes → (u : Vote) × Has u (get_latest_cc_votes votes) × SpeaksFor u w)
unfolding get_latest_cc_votes
get_latest_cc_votes_lem votes =
    let groups = group_votes [] votes in
    let sound = group_votes-IsGroup [] votes tt in
    (
      latest_of_groups-distinct groups [] sound (group_votes-HasDistinctKeys [] votes tt) tt tt,
      λ u h.
          cast u (group_votes-InGroups_inv u [] votes) (latest_of_groups-from u groups [] sound h),
      λ w h. latest_of_groups-covers w groups [] sound (group_votes-InGroups w [] votes (inr h)),
    )
  where
    cast :
        (u : Vote)
        → (InGroups u (group_votes [] votes) → ⊥ ⊎ Has u votes)
        → ⊥ ⊎ InGroups u (group_votes [] votes)
        → Has u votes
    cast u inv (inl x) = elim x [ ]
    cast u inv (inr g) = elim (inv g) [ inl x ↦ elim x [ ] | inr h ↦ h ]
