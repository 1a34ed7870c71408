-- ===== src/MemoryStore/Each.antt =====
-- A fact about every entry of a map of maps, and what each write does to it.
use cairnline.Base.{
  String, Bool, false, ◌&&◌, some, ◌≡◌, ◌≢◌, arith, eq_iff, ◌==◌, string_eq, Bool-cases, inl, inr,
  subst,
}
use cairnline.Base.Nested
use cairnline.Base.Nested.{Nested}

module _ {V : Type 0} where
  abbrev pub Each : (String → String → V → Type 0) → Nested V → Type 0
  Each G t = (p id : String) (v : V) → Nested.get p id t ≡ some v → G p id v

  module _ (G : String → String → V → Type 0) (t : Nested V) (all : Each G t) where
    pub Each-put : (p id : String) (v : V) → G p id v → Each G (Nested.put p id v t)
    Each-put p id v g q j w h = elim (Bool-cases (p == q && id == j)) [
      | inl hit ↦
          let same_p : p ≡ q = ground (arith, eq_iff p q) in
          let same_id : id ≡ j = ground (arith, eq_iff id j) in
          let same_v : v ≡ w = ground (arith, Nested.get-put q j p id v t) in
          subst (λ x. G x j w) same_p (subst (λ x. G p x w) same_id (subst (G p id) same_v g))
      | inr miss ↦ all q j w (ground (arith, Nested.get-put q j p id v t))
    ]

    pub Each-delete : (p id : String) → Each G (Nested.delete p id t)
    Each-delete p id q j w h = all q j w (ground (arith, Nested.get-delete q j p id t))

    -- Entries that a deletion leaves meet what they met, and are not the ones deleted.
    pub Each-delete_where :
        (H : String → String → V → Type 0) (p : String) (test : V → Bool)
        → ((q id : String) (v : V) → G q id v → (p ≡ q → test v ≡ false) → H q id v)
        → Each H (Nested.delete_where p test t)
    Each-delete_where H p test step q j w h =
        step q j w (all q j w (ground (arith, Nested.get-delete_where q j p test t, eq_iff p q)))
          (λ e. ground (arith, Nested.get-delete_where q j p test t, (eq_iff p q).1 e))

    pub Each-delete_all :
        (H : String → String → V → Type 0) (p : String)
        → ((q id : String) (v : V) → p ≢ q → G q id v → H q id v)
        → Each H (Nested.delete_all p t)
    Each-delete_all H p step q j w h =
        step q j w (ground (arith, Nested.get-delete_all q j p t, eq_iff p q))
          (all q j w (ground (arith, Nested.get-delete_all q j p t)))

    pub Each-weaken :
        (H : String → String → V → Type 0)
        → ((q id : String) (v : V) → G q id v → H q id v)
        → Each H t
    Each-weaken H step q j w h = step q j w (all q j w h)
