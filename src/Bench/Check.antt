-- ===== src/Bench/Check.antt =====
-- src/sc_main.cpp, the loopback check of `run_scenarios`.
use usb3_otg.Base.{
  ℕ, suc, ◌≡◌, refl, sym, ap, ap₂, subst, ◌∙◌, ◌↔◌, Bool, true, false, List, [], ◌∷◌, ◌++◌, length,
  get_or, arith, append_assoc, ◌==◌, drop, if◌then◌else◌,
}
use usb3_otg.Bench.{compare_bytes, check_loopback}

get_or-append : (pre : List ℕ) (y : ℕ) (ys : List ℕ) → get_or (pre ++ y ∷ ys) (length pre) 0 ≡ y
get_or-append [] y ys = refl
get_or-append (p ∷ pre) y ys = get_or-append pre y ys

length-snoc : (pre : List ℕ) (y : ℕ) → length (pre ++ y ∷ []) ≡ suc (length pre)
length-snoc [] y = refl
length-snoc (p ∷ pre) y = ap suc (length-snoc pre y)

both : (x v : ℕ) (r : Bool) → ((if x == v then r else false) ≡ true) ↔ ((x ≡ v) × (r ≡ true))
both x v r = (λ e. ground arith, λ e. ground (arith, e.0, e.1))

-- Two lists of one length agree from an index on.
compare_bytes_lem :
    (rx pre ys : List ℕ)
    → length rx ≡ length ys
    → (compare_bytes rx (length pre) (pre ++ ys) ≡ true) ↔ (rx ≡ ys)
unfolding compare_bytes
compare_bytes_lem [] pre [] l = (λ _. refl, λ _. refl)
compare_bytes_lem [] pre (y ∷ ys) l = cc
compare_bytes_lem (x ∷ rx) pre [] l = cc
compare_bytes_lem (x ∷ rx) pre (y ∷ ys) l =
    let ih : (compare_bytes rx (suc (length pre)) (pre ++ y ∷ ys) ≡ true) ↔ (rx ≡ ys) =
      subst (λ n. (compare_bytes rx n (pre ++ y ∷ ys) ≡ true) ↔ (rx ≡ ys)) (length-snoc pre y)
        (subst (λ t. (compare_bytes rx (length (pre ++ y ∷ [])) t ≡ true) ↔ (rx ≡ ys))
          (append_assoc pre (y ∷ []) ys)
          (compare_bytes_lem rx (pre ++ y ∷ []) ys (omega (arith, l)))) in
    let (split, join) =
      both x (get_or (pre ++ y ∷ ys) (length pre) 0)
        (compare_bytes rx (suc (length pre)) (pre ++ y ∷ ys)) in
    let at_index = get_or-append pre y ys in
    (
      λ e. let (same, rest) = split e in ap₂ (λ z zs. z ∷ zs) (same ∙ at_index) (ih.0 rest),
      λ e. join (ap (λ l. get_or l 0 0) e ∙ sym at_index, ih.1 (ap (drop 1) e)),
    )

-- The check passes exactly when the bytes that came back are the ones that were sent, for any 64
-- bytes sent.
pub check_loopback_iff :
    (rx tx : List ℕ) → length tx ≡ 64 → (check_loopback rx tx ≡ true) ↔ (rx ≡ tx)
unfolding check_loopback
check_loopback_iff rx tx l =
    let (split, join) = both (length rx) 64 (compare_bytes rx 0 tx) in
    (
      λ e. let (n, same) = split e in (compare_bytes_lem rx [] tx (n ∙ sym l)).0 same,
      λ e.
          let n : length rx ≡ 64 = ap length e ∙ l in
          join (n, (compare_bytes_lem rx [] tx (n ∙ sym l)).1 e),
    )
