-- ===== src/Ser/Prefix.antt =====
-- Encodings of numbers and lengths are prefix codes: what follows them in the stream cannot be taken
-- for a part of them.
use rust_stainless.Prelude.{
  ℕ, ◌^◌, ◌≤◌, ◌<◌, ◌≡◌, refl, sym, ◌∙◌, [], ◌∷◌, ◌++◌, append_assoc, arith, length, ltb,
  Bool-cases, inl, inr,
}
use rust_stainless.Ser.{Bytes, to_be_bytes, i32_max}
use rust_stainless.Ser.Laws.{encode_length}

cons_injective : {m n : ℕ} {a b : Bytes} → m ∷ a ≡ n ∷ b → a ≡ b
cons_injective e = cc

-- Two streams that begin with `a` and with `b` and are equal show `P`, and go on alike.
pub record Tells {ℓ} (P : Type ℓ) (a b : Bytes) : Type ℓ where
  pub tell : (x y : Bytes) → a ++ x ≡ b ++ y → P × (x ≡ y)

module _ {ℓ} {P : Type ℓ} {a b : Bytes} where
  pub Tells-map {κ} : {Q : Type κ} → (P → Q) → Tells P a b → Tells Q a b
  Tells-map f t = record { tell = λ x y e. let (p, rest) = t.tell x y e in (f p, rest) }

  pub Tells-cons : (m n : ℕ) → Tells P a b → Tells P (m ∷ a) (n ∷ b)
  Tells-cons m n t = record { tell = λ x y e. t.tell x y (cons_injective e) }

  pub Tells-head : {m n : ℕ} → (m ≡ n → Tells P a b) → Tells P (m ∷ a) (n ∷ b)
  Tells-head t = record { tell = λ x y e. (t (cc)).tell x y (cons_injective e) }

  pub Tells-append {κ} :
      {Q : Type κ} {c d : Bytes} → Tells P a b → (P → Tells Q c d) → Tells (P × Q) (a ++ c) (b ++ d)
  Tells-append {c = c} {d = d} t u = record {
    tell = λ x y e.
        let (p, middle) =
          t.tell (c ++ x) (d ++ y) (sym (append_assoc a c x) ∙ e ∙ append_assoc b d y) in
        let (q, rest) = (u p).tell x y middle in ((p, q), rest);
  }

pub Tells-nil : Tells (Unit {0}) [] []
Tells-nil = record { tell = λ x y e. (tt, e) }

pub Tells-absurd {ℓ} : {P : Type ℓ} {m n : ℕ} {a b : Bytes} → ¬ (m ≡ n) → Tells P (m ∷ a) (n ∷ b)
Tells-absurd h = record { tell = λ x y e. absurd (h (cc)) }

-- Byte strings of one length.
pub append_Tells : (a b : Bytes) → length a ≡ length b → Tells (a ≡ b) a b
append_Tells [] [] h = Tells-map (λ _. refl) Tells-nil
append_Tells [] (b ∷ v) h = absurd (omega arith)
append_Tells (a ∷ u) [] h = absurd (omega arith)
append_Tells (a ∷ u) (b ∷ v) h =
    Tells-head λ heads. Tells-map (λ tails. cc (heads, tails)) (append_Tells u v (omega arith))

pub u16_Tells :
    (v w : ℕ) → v < 2 ^ 16 → w < 2 ^ 16 → Tells (v ≡ w) (to_be_bytes 2 v) (to_be_bytes 2 w)
u16_Tells v w hv hw = Tells-head λ e1. Tells-head λ e0. Tells-map (λ _. omega arith) Tells-nil

pub u32_Tells :
    (v w : ℕ) → v < 2 ^ 32 → w < 2 ^ 32 → Tells (v ≡ w) (to_be_bytes 4 v) (to_be_bytes 4 w)
u32_Tells v w hv hw =
    Tells-head λ e3.
      Tells-head λ e2. Tells-head λ e1. Tells-head λ e0. Tells-map (λ _. omega arith) Tells-nil

pub length_Tells :
    (m n : ℕ) → m ≤ i32_max → n ≤ i32_max → Tells (m ≡ n) (encode_length m) (encode_length n)
length_Tells m n hm hn = elim (Bool-cases (ltb m 255)) [
  | inl p ↦ elim (Bool-cases (ltb n 255)) [
    | inl q ↦ rw (p, q) (Tells-head λ e. Tells-map (λ _. e) Tells-nil)
    | inr q ↦ rw (p, q) (Tells-absurd λ e. ground arith)
  ]
  | inr p ↦ elim (Bool-cases (ltb n 255)) [
    | inl q ↦ rw (p, q) (Tells-absurd λ e. ground arith)
    | inr q ↦
        rw (p, q)
          (Tells-cons _ _
            (Tells-cons _ _ (Tells-cons _ _ (u32_Tells m n (omega arith) (omega arith)))))
  ]
]
