-- ===== src/Delegation/Order.antt =====
-- The order of account updates: epoch, then slot of the epoch, then absolute slot, then block time, each
-- with what is absent first.
use mathlib.Core.List.Perm
use mathlib.Core.List.{Perm}
use cgov_api.Prelude.{
  [], ℕ, suc, ◌<◌, ◌≤◌, ◌≡◌, refl, sym, ◌∙◌, ap, true, false, Bool, Bool-cases, inl, inr, ◌⊎◌,
  Option, none, some, List, ◌∷◌, arith, ltb, ◌==◌, ◌&&◌, ◌||◌, filter, All, All-map, if◌then◌else◌,
}
use cgov_api.Prelude.Int.{ltb_ℤ}
use cgov_api.Delegation.{AccountUpdate, or_minus_one, precedes, insert_update, sort_account_updates}

-- What is absent ranks before every number.
abbrev pub rank : Option ℕ → ℕ
rank none = 0
rank (some n) = suc n

-- `a` does not come after `b`.
abbrev pub Within : AccountUpdate → AccountUpdate → Type 0
Within a b =
    (rank a.epoch_no < rank b.epoch_no)
    ⊎ ((rank a.epoch_no ≡ rank b.epoch_no)
        × ((rank a.epoch_slot < rank b.epoch_slot)
            ⊎ ((rank a.epoch_slot ≡ rank b.epoch_slot)
                × ((rank a.absolute_slot < rank b.absolute_slot)
                    ⊎ ((rank a.absolute_slot ≡ rank b.absolute_slot)
                        × (rank a.block_time ≤ rank b.block_time))))))

-- `a` and `b` stand at the same place of the order.
abbrev pub level : AccountUpdate → AccountUpdate → Bool
level a b =
    rank a.epoch_no == rank b.epoch_no
    && rank a.epoch_slot == rank b.epoch_slot
    && rank a.absolute_slot == rank b.absolute_slot
    && rank a.block_time == rank b.block_time

-- No update comes after one that stands later in the list.
abbrev pub IsOrdered : List AccountUpdate → Type 0
IsOrdered [] = Unit
IsOrdered (x ∷ xs) = All (Within x) xs × IsOrdered xs

before_rank : (x y : Option ℕ) → ltb_ℤ (or_minus_one x) (or_minus_one y) ≡ ltb (rank x) (rank y)
before_rank none none = refl
before_rank none (some n) = ground arith
before_rank (some m) none = ground arith
before_rank (some m) (some n) = ground arith

lex : (e e' s s' a a' t t' : ℕ) → Bool
lex e e' s s' a a' t t' =
    if ltb e e' || ltb e' e
    then ltb e e'
    else if ltb s s' || ltb s' s
    then ltb s s'
    else if ltb a a' || ltb a' a
    then ltb a a'
    else ltb t t'

precedes-lex :
    (a b : AccountUpdate)
    → precedes a b
      ≡ lex
          (rank a.epoch_no)
          (rank b.epoch_no)
          (rank a.epoch_slot)
          (rank b.epoch_slot)
          (rank a.absolute_slot)
          (rank b.absolute_slot)
          (rank a.block_time)
          (rank b.block_time)
unfolding precedes lex
precedes-lex a b =
    rw
      (
        before_rank a.epoch_no b.epoch_no,
        before_rank b.epoch_no a.epoch_no,
        before_rank a.epoch_slot b.epoch_slot,
        before_rank b.epoch_slot a.epoch_slot,
        before_rank a.absolute_slot b.absolute_slot,
        before_rank b.absolute_slot a.absolute_slot,
        before_rank a.block_time b.block_time,
      )
      refl

precedes-Within : (a b : AccountUpdate) → precedes a b ≡ true → Within a b
unfolding lex
precedes-Within a b h = ground (arith, h, precedes-lex a b)

not_precedes-Within : (a b : AccountUpdate) → precedes b a ≡ false → Within a b
unfolding lex
not_precedes-Within a b h = ground (arith, h, precedes-lex b a)

Within-trans : (a b c : AccountUpdate) → Within a b → Within b c → Within a c
Within-trans a b c h k = ground (arith, h, k)

level_ranks :
    (a b : AccountUpdate)
    → level a b ≡ true
    → (rank a.epoch_no ≡ rank b.epoch_no)
      × (rank a.epoch_slot ≡ rank b.epoch_slot)
      × (rank a.absolute_slot ≡ rank b.absolute_slot)
      × (rank a.block_time ≡ rank b.block_time)
level_ranks a b h = ground (arith, h)

lex_irrefl : (e s a t : ℕ) → lex e e s s a a t t ≡ false
unfolding lex
lex_irrefl e s a t = ground arith

precedes-level :
    (a b u : AccountUpdate) → precedes a b ≡ true → level u b ≡ true → level u a ≡ false
precedes-level a b u h same_b = elim (Bool-cases (level u a)) [
  | inr differ ↦ differ
  | inl same_a ↦
      let (e, s, l, t) = level_ranks u a same_a in
      let (e', s', l', t') = level_ranks u b same_b in
      let not_before : precedes a b ≡ false =
        precedes-lex a b
        ∙ rw (sym e, sym s, sym l, sym t, sym e', sym s', sym l', sym t')
            (lex_irrefl (rank u.epoch_no) (rank u.epoch_slot) (rank u.absolute_slot)
              (rank u.block_time)) in
      absurd (ground (arith, h, not_before))
]

insert_update-All :
    (w x : AccountUpdate) (ys : List AccountUpdate)
    → Within w x
    → All (Within w) ys
    → All (Within w) (insert_update x ys)
unfolding insert_update
insert_update-All w x [] h hs = (h, tt)
insert_update-All w x (y ∷ ys) h hs = elim (Bool-cases (precedes y x)) [
  | inl t ↦ rw t (hs.0, insert_update-All w x ys h hs.1)
  | inr f ↦ rw f (h, hs)
]

insert_update-IsOrdered :
    (x : AccountUpdate) (ys : List AccountUpdate) → IsOrdered ys → IsOrdered (insert_update x ys)
unfolding insert_update
insert_update-IsOrdered x [] h = (tt, tt)
insert_update-IsOrdered x (y ∷ ys) h = elim (Bool-cases (precedes y x)) [
  | inl t ↦
      rw t (insert_update-All y x ys (precedes-Within y x t) h.0, insert_update-IsOrdered x ys h.1)
  | inr f ↦
      let first = not_precedes-Within x y f in
      rw f ((first, All-map (Within y) (Within x) (λ z. Within-trans x y z first) ys h.0), h)
]

insert_update-Perm :
    (x : AccountUpdate) (ys : List AccountUpdate) → Perm (insert_update x ys) (x ∷ ys)
unfolding insert_update
insert_update-Perm x [] = Perm.rfl
insert_update-Perm x (y ∷ ys) = elim (Bool-cases (precedes y x)) [
  | inl t ↦ rw t (Perm.trans (Perm.cons y (insert_update-Perm x ys)) (Perm.swap x y ys))
  | inr f ↦ rw f Perm.rfl
]

filter-swap :
    (u x y : AccountUpdate) (zs ys : List AccountUpdate)
    → precedes y x ≡ true
    → filter (level u) zs ≡ filter (level u) (x ∷ ys)
    → filter (level u) (y ∷ zs) ≡ filter (level u) (x ∷ y ∷ ys)
filter-swap u x y zs ys t h = elim (Bool-cases (level u x)) [
  | inl same ↦ rw (precedes-level y x u t same) h
  | inr differ ↦
      let without : filter (level u) (x ∷ ys) ≡ filter (level u) ys = rw differ refl in
      let rest : filter (level u) zs ≡ filter (level u) ys = h ∙ without in rw (differ, rest) refl
]

insert_update-filter :
    (u x : AccountUpdate) (ys : List AccountUpdate)
    → filter (level u) (insert_update x ys) ≡ filter (level u) (x ∷ ys)
unfolding insert_update
insert_update-filter u x [] = refl
insert_update-filter u x (y ∷ ys) = elim (Bool-cases (precedes y x)) [
  | inr f ↦ rw f refl
  | inl t ↦ rw t (filter-swap u x y (insert_update x ys) ys t (insert_update-filter u x ys))
]

-- The sorted updates are the same updates; none comes after a later one, by epoch, slot of the epoch,
-- absolute slot and block time in turn, where an absent value comes first; and updates that agree in all
-- four keep their order.
pub sort_account_updates-IsOrdered :
    (entries : List AccountUpdate) (u : AccountUpdate)
    → IsOrdered (sort_account_updates entries)
      × Perm (sort_account_updates entries) entries
      × (filter (level u) (sort_account_updates entries) ≡ filter (level u) entries)
unfolding sort_account_updates
sort_account_updates-IsOrdered [] u = (tt, Perm.nil, refl)
sort_account_updates-IsOrdered (x ∷ xs) u =
    let (ordered, same, stable) = sort_account_updates-IsOrdered xs u in
    (
      insert_update-IsOrdered x (sort_account_updates xs) ordered,
      Perm.trans (insert_update-Perm x (sort_account_updates xs)) (Perm.cons x same),
      insert_update-filter u x (sort_account_updates xs)
          ∙ ap (λ l. if level u x then x ∷ l else l) stable,
    )
