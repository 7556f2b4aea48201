-- ===== src/Database/Names/Owned.antt =====
-- A name that is registered to an owner, under the writes of src/database.
use kromer.Prelude.{
  ℕ, pos, String, str_eq, eq_iff, ◌≡◌, refl, ap, ◌∙◌, some, List, [], ◌∷◌, find, push, update_where,
  if◌then◌else◌, Bool, true, false, Bool-cases, inl, inr,
}
use kromer.Database.{Tables, Serials, Name}
use kromer.Database.Closed.{Moves}
use kromer.Database.Keeps.{Writes, Writes-check, Writes-update_returning}
use kromer.Database.Names.{named, insert_name, write_name, accepts_name}
use kromer.Database.Names.Unique.{create_impl-Leaves}
use kromer.Database.Wallets.{insert_wallet, accepts_wallet}

-- The row of a name, which the address owns.
abbrev pub OwnedBy : String → String → List Name → Type 0
OwnedBy n a l = (r : Name) × ((find (named n) l ≡ some r) × (r.owner ≡ a))

pub record Owned (n o : String) (t : Tables) : Type 0 where
  pub holds : OwnedBy n o t.names

find-push-found :
    (n : String) (rs : List Name) (r v : Name)
    → find (named n) rs ≡ some v
    → find (named n) (push rs r) ≡ some v
find-push-found n [] r v h = absurd (cc)
find-push-found n (q ∷ rs) r v h = elim (Bool-cases (str_eq q.name n)) [
  | inl here ↦ rw here (rw here at h)
  | inr there ↦ rw there (find-push-found n rs r v (rw there at h))
]

-- A row that the look-up finds is found again after a change that leaves the names.
module _ (f : Name → Name) (keeps : (r : Name) → (f r).name ≡ r.name) (m n : String) where
  -- A change of other names.
  pub find-update_where-apart :
      (rs : List Name)
      → str_eq m n ≡ false
      → find (named n) (update_where (named m) f rs) ≡ find (named n) rs
  find-update_where-apart [] apart = refl
  find-update_where-apart (r ∷ rs) apart = elim (Bool-cases (str_eq r.name m)) [
    | inl here ↦
        let same : r.name ≡ m = (eq_iff r.name m).0 here in
        let other : str_eq r.name n ≡ false = rw same apart in
        rw (here, keeps r, other) (find-update_where-apart rs apart)
    | inr there ↦
        rw there
          (ap (λ o. if str_eq r.name n then some r else o) (find-update_where-apart rs apart))
  ]

-- A row before the others, which has the name or has not.
head-OwnedBy :
    (n o : String) (q : Name) (rs : List Name)
    → str_eq q.name n ≡ true
    → q.owner ≡ o
    → OwnedBy n o (q ∷ rs)
head-OwnedBy n o q rs here owned = (q, (rw here refl, owned))

tail-OwnedBy :
    (n o : String) (q : Name) (rs : List Name)
    → str_eq q.name n ≡ false
    → OwnedBy n o rs
    → OwnedBy n o (q ∷ rs)
tail-OwnedBy n o q rs there (v, (found, owned)) = (v, (rw there found, owned))

-- A change that leaves owners alone.
module _ (f : Name → Name) (keeps : (r : Name) → (f r).name ≡ r.name)
    (owns : (r : Name) → (f r).owner ≡ r.owner) (m n o : String) where
  pub update_where-OwnedBy :
      (rs : List Name) → OwnedBy n o rs → OwnedBy n o (update_where (named m) f rs)
  update_where-OwnedBy [] (v, (found, owned)) = absurd (cc)
  update_where-OwnedBy (r ∷ rs) (v, (found, owned)) = elim (Bool-cases (str_eq r.name n)) [
    | inl here ↦
        let it : some r ≡ some v = rw here at found in
        let owner : r.owner ≡ o = cc in
        head-OwnedBy n o (if str_eq r.name m then f r else r) (update_where (named m) f rs)
          (changed (str_eq r.name m) r here) (still (str_eq r.name m) r owner)
    | inr there ↦
        tail-OwnedBy n o (if str_eq r.name m then f r else r) (update_where (named m) f rs)
          (unchanged (str_eq r.name m) r there)
          (update_where-OwnedBy rs (v, (rw there at found, owned)))
  ]
    where
      changed :
          (b : Bool) (r : Name)
          → str_eq r.name n ≡ true
          → str_eq (if b then f r else r).name n ≡ true
      changed true r h = rw (keeps r) h
      changed false r h = h

      unchanged :
          (b : Bool) (r : Name)
          → str_eq r.name n ≡ false
          → str_eq (if b then f r else r).name n ≡ false
      unchanged true r h = rw (keeps r) h
      unchanged false r h = h

      still : (b : Bool) (r : Name) → r.owner ≡ o → (if b then f r else r).owner ≡ o
      still true r h = rw (owns r) h
      still false r h = h

insert_wallet-Owned :
    (n o a hash : String) (s : Serials) (now : ℕ) (t : Tables)
    → Owned n o t
    → Writes (Owned n o) (insert_wallet a hash (pos 0) s now t)
unfolding insert_wallet
insert_wallet-Owned n o a hash s now t h =
    Writes-check (Owned n o) (accepts_wallet s.wallet_id t.wallets a hash (pos 0)) _ _
      (λ _. record { holds = h.holds })

insert_name-Owned :
    (n o m p : String) (s : Serials) (now : ℕ) (t : Tables)
    → Owned n o t
    → Writes (Owned n o) (insert_name m p s now t)
unfolding insert_name
insert_name-Owned n o m p s now t h =
    Writes-check (Owned n o) (accepts_name s.name_id t.names m p) _ _ λ _. record {
      holds = (h.holds.0, (find-push-found n t.names _ h.holds.0 h.holds.1.0, h.holds.1.1));
    }

write_name-Owned :
    (n o : String) (fits : Name → Bool) (m : String) (f : ℕ → Name → Name) (now : ℕ) (t : Tables)
    → ((r : Name) → (f now r).name ≡ r.name)
    → ((r : Name) → (f now r).owner ≡ r.owner)
    → Owned n o t
    → Writes (Owned n o) (write_name fits m f now t)
unfolding write_name
write_name-Owned n o fits m f now t keeps owns h =
    Writes-update_returning fits (named m) (f now) t.names (Owned n o) _
      λ r found. record { holds = update_where-OwnedBy (f now) keeps owns m n o t.names h.holds }

-- Another name's owner is written.
pub apart-Owned :
    (n o : String) (fits : Name → Bool) (m : String) (f : ℕ → Name → Name) (now : ℕ) (t : Tables)
    → ((r : Name) → (f now r).name ≡ r.name)
    → str_eq m n ≡ false
    → Owned n o t
    → Writes (Owned n o) (write_name fits m f now t)
unfolding write_name
apart-Owned n o fits m f now t keeps apart h =
    Writes-update_returning fits (named m) (f now) t.names (Owned n o) _ λ r found. record {
      holds = (
        h.holds.0,
        (find-update_where-apart (f now) keeps m n t.names apart ∙ h.holds.1.0, h.holds.1.1),
      );
    }

-- All but a change of owner.
pub Owned-Moves : (n o : String) → Moves (Owned n o)
Owned-Moves n o = record {
  rows = record {
    wallet_inserted = insert_wallet-Owned n o;
    name_inserted = insert_name-Owned n o;
    name_written = write_name-Owned n o;
  };
  money_moved = λ C.
      create_impl-Leaves (Owned n o) (λ t l h. record { holds = h.holds })
        (λ t l h. record { holds = h.holds }) C;
}
