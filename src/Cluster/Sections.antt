-- ===== src/Cluster/Sections.antt =====
-- redis/cluster.py: the table of slots that `NodesManager.initialize` makes of one section.
use redis_py.Common.{
  ℕ, zero, suc, ◌+◌, ◌≡◌, refl, ◌∙◌, ap, subst, ◌||◌, Bool, true, false, Bool-cases, ◌&&◌, List,
  Option, none, some, ltb, leb, ◌==◌, ==_iff, inl, inr, arith, if◌then◌else◌,
}
use redis_py.Common.Equality.{Eq, ℕ_Eq}
use redis_py.Common.OrderedDict.{Dict, get, get-put}
use redis_py.Common.Outcome.{Result, ok, err}
use redis_py.Cluster.Nodes.{ClusterError, or_empty}
use redis_py.Cluster.Initialize.{
  Tables, differs, disagreed, add_slot, slot_added, then_do, add_slots,
}

-- What holds of a result that is no error.
abbrev pub After : {A : Type 0} → (A → Type 0) → Result ClusterError A → Type 0
After P (ok a) = P a
After P (err e) = Unit

pub then_do-After :
    {A B : Type 0} (P : A → Type 0) (Q : B → Type 0) (r : Result ClusterError A)
    (f : A → Result ClusterError B)
    → After P r
    → ((a : A) → P a → After Q (f a))
    → After Q (then_do r f)
then_do-After P Q (ok a) f h k = k a h
then_do-After P Q (err e) f h k = tt

pub After-map :
    {A : Type 0} (P Q : A → Type 0) (r : Result ClusterError A)
    → ((a : A) → P a → Q a)
    → After P r
    → After Q r
After-map P Q (ok a) f h = f a h
After-map P Q (err e) f h = tt

abbrev pub or_else : {A : Type 0} → Option A → Option A → Option A
or_else none b = b
or_else (some a) b = some a

-- The slots from the first to the last, both included, and the names of their nodes.
pub record Span (Name : Type 0) : Type 0 where
  pub from : ℕ
  pub upto : ℕ
  pub nodes : List Name

abbrev pub contains : {Name : Type 0} → ℕ → Span Name → Bool
contains slot x = leb x.from slot && leb slot x.upto

or_else-none :
    (o : Option ℕ) (b : Bool) → b ≡ false → (r : ℕ) → o ≡ or_else o (if b then some r else none)
or_else-none none b h r = rw h refl
or_else-none (some a) b h r = refl

pub or_else_assoc :
    {A : Type 0} (a b c : Option A) → or_else (or_else a b) c ≡ or_else a (or_else b c)
or_else_assoc none b c = refl
or_else_assoc (some a) b c = refl

or_else-if :
    {A : Type 0} (o : A) (x y : Bool)
    → or_else (if x then some o else none) (if y then some o else none)
      ≡ (if x || y then some o else none)
or_else-if o true y = refl
or_else-if o false y = refl

one_slot : (i slot : ℕ) → (leb i slot && ltb slot (i + 1)) ≡ (i == slot)
one_slot i slot = ground arith

next_slots :
    (i count slot : ℕ)
    → ((leb i slot && ltb slot (i + 1)) || (leb (suc i) slot && ltb slot (suc i + count)))
      ≡ (leb i slot && ltb slot (i + suc count))
next_slots i count slot = ground arith

module _ {Name : Type 0} ⦃e : Eq Name⦄ where
  -- The list of a slot in the tables.
  abbrev pub listed : Option ℕ → Dict ℕ (List Name) → Option (List Name)
  listed none lists = none
  listed (some r) lists = some (or_empty (get r lists))

  abbrev pub nodes_at : ℕ → Tables Name → Option (List Name)
  nodes_at slot t = listed (get slot t.tmp_slots) t.tmp_lists

  -- `count` slots from `i` on have the list, if they had none; the lists are the same.
  pub record Added (r count i : ℕ) (t u : Tables Name) : Type 0 where
    pub same_lists : u.tmp_lists ≡ t.tmp_lists
    pub same_next : u.tmp_next ≡ t.tmp_next
    pub slots :
        (slot : ℕ)
        → get slot u.tmp_slots
          ≡ or_else
              (get slot t.tmp_slots)
              (if leb i slot && ltb slot (i + count) then some r else none)

  unchanged-Added :
      (r i q : ℕ) (t u : Tables Name)
      → get i t.tmp_slots ≡ some q
      → u.tmp_lists ≡ t.tmp_lists
      → u.tmp_next ≡ t.tmp_next
      → u.tmp_slots ≡ t.tmp_slots
      → Added r 1 i t u
  unchanged-Added r i q t u h a b c = record {
    same_lists = a;
    same_next = b;
    slots = λ slot. ap (get slot) c ∙ (elim (Bool-cases (i == slot)) [
      | inl p ↦
          let g : get slot t.tmp_slots ≡ some q =
            subst (λ j. get j t.tmp_slots ≡ some q) ((==_iff i slot).0 p) h in
          rw g refl
      | inr p ↦
          or_else-none (get slot t.tmp_slots) (leb i slot && ltb slot (i + 1)) (one_slot i slot ∙ p)
            r
    ]);
  }

  disagreed-Added :
      (b : Bool) (r i : ℕ) (t : Tables Name) (q : ℕ)
      → get i t.tmp_slots ≡ some q
      → After (Added r 1 i t) (disagreed b t)
  disagreed-Added false r i t q h = unchanged-Added r i q t t h refl refl refl
  disagreed-Added true r i t q h = elim (Bool-cases (ltb 5 (suc t.disagreements))) [
    | inl p ↦ rw p tt
    | inr p ↦ rw p (
        unchanged-Added r i q t (record t { disagreements = suc t.disagreements }) h refl refl refl)
  ]

  slot_added-Added :
      (o : Option ℕ) (target : Name) (r i : ℕ) (t : Tables Name)
      → get i t.tmp_slots ≡ o
      → After (Added r 1 i t) (slot_added o target r i t)
  slot_added-Added none target r i t h = record {
    same_lists = refl;
    same_next = refl;
    slots = λ slot. get-put i slot r t.tmp_slots ∙ (elim (Bool-cases (i == slot)) [
      | inl p ↦
          let g : get slot t.tmp_slots ≡ none =
            subst (λ j. get j t.tmp_slots ≡ none) ((==_iff i slot).0 p) h in
          rw (g, one_slot i slot, p) refl
      | inr p ↦ rw p (
          or_else-none (get slot t.tmp_slots) (leb i slot && ltb slot (i + 1)) (one_slot i slot ∙ p)
            r)
    ]);
  }
  slot_added-Added (some q) target r i t h =
      disagreed-Added (differs target (or_empty (get q t.tmp_lists))) r i t q h

  add_slot-Added :
      (target : Name) (r i : ℕ) (t : Tables Name) → After (Added r 1 i t) (add_slot target r i t)
  unfolding add_slot
  add_slot-Added target r i t = slot_added-Added (get i t.tmp_slots) target r i t refl

  Added-next :
      (r count i : ℕ) (t u v : Tables Name)
      → Added r 1 i t u
      → Added r count (suc i) u v
      → Added r (suc count) i t v
  Added-next r count i t u v h k = record {
    same_lists = k.same_lists ∙ h.same_lists;
    same_next = k.same_next ∙ h.same_next;
    slots = λ slot.
        k.slots slot
        ∙ ap
            (λ o. or_else o (if leb (suc i) slot && ltb slot (suc i + count) then some r else none))
            (h.slots slot)
        ∙ or_else_assoc (get slot t.tmp_slots)
            (if leb i slot && ltb slot (i + 1) then some r else none)
            (if leb (suc i) slot && ltb slot (suc i + count) then some r else none)
        ∙ ap (or_else (get slot t.tmp_slots)) (
            or_else-if r (leb i slot && ltb slot (i + 1))
              (leb (suc i) slot && ltb slot (suc i + count))
            ∙ ap (λ b. if b then some r else none) (next_slots i count slot));
  }

  pub add_slots-Added :
      (target : Name) (r count i : ℕ) (t : Tables Name)
      → After (Added r count i t) (add_slots target r count i t)
  unfolding add_slots
  add_slots-Added target r zero i t = record {
    same_lists = refl;
    same_next = refl;
    slots = λ slot.
        or_else-none (get slot t.tmp_slots) (leb i slot && ltb slot (i + 0)) (ground arith) r;
  }
  add_slots-Added target r (suc count) i t =
      then_do-After (Added r 1 i t) (Added r (suc count) i t) (add_slot target r i t)
        (add_slots target r count (suc i)) (add_slot-Added target r i t)
        (λ u h.
          After-map (Added r count (suc i) u) (Added r (suc count) i t)
            (add_slots target r count (suc i) u) (λ v k. Added-next r count i t u v h k)
            (add_slots-Added target r count (suc i) u))
