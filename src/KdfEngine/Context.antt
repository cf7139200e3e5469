-- ===== src/KdfEngine/Context.antt =====
-- The context that is hashed for a slot and the associated data of its record, and how their ends name
-- the mode and the role.
use phantasm.Base.{
  ◌≡◌, refl, sym, ap, ◌∙◌, String, inl, inr, List, [], ◌∷◌, ◌++◌, Bytes, codes, length, drop,
  drop-append, append_assoc, arith,
}
use phantasm.Container.Spans.{IsMode, IsRole}
use phantasm.Container.{ContainerLayout}
use phantasm.RecordCipher.{record_aad}
use phantasm.KdfEngine.{context_password, join_dash}

-- The reverse of the first list, in front of the second.
abbrev rev : Bytes → Bytes → Bytes
rev [] acc = acc
rev (x ∷ xs) acc = rev xs (x ∷ acc)

rev-append : (xs ys acc : Bytes) → rev (xs ++ ys) acc ≡ rev ys (rev xs acc)
rev-append [] ys acc = refl
rev-append (x ∷ xs) ys acc = rev-append xs ys (x ∷ acc)

rev_injective : (t : Bytes) {a b : Bytes} → rev t a ≡ rev t b → a ≡ b
rev_injective [] h = h
rev_injective (c ∷ t) {a} {b} h = cc (rev_injective t {a = c ∷ a} {b = c ∷ b} h)

-- Two texts that end in a role end in the same one; so with a mode.
role_at_end :
    (r r' : String) (x y : Bytes)
    → IsRole r
    → IsRole r'
    → rev (codes r) x ≡ rev (codes r') y
    → r ≡ r'
role_at_end r r' x y (inl a) (inl b) = λ e. a ∙ sym b
role_at_end r r' x y (inl a) (inr b) = rw (a, b) (λ e. absurd (ground arith))
role_at_end r r' x y (inr a) (inl b) = rw (a, b) (λ e. absurd (ground arith))
role_at_end r r' x y (inr a) (inr b) = λ e. a ∙ sym b

mode_at_end :
    (m m' : String) (x y : Bytes)
    → IsMode m
    → IsMode m'
    → rev (codes m) x ≡ rev (codes m') y
    → m ≡ m'
mode_at_end m m' x y (inl a) (inl b) = λ e. a ∙ sym b
mode_at_end m m' x y (inl a) (inr b) = rw (a, b) (λ e. absurd (ground arith))
mode_at_end m m' x y (inr a) (inl b) = rw (a, b) (λ e. absurd (ground arith))
mode_at_end m m' x y (inr a) (inr b) = λ e. a ∙ sym b

ends_apart :
    (x y : Bytes) (m r m' r' : String)
    → IsMode m
    → IsRole r
    → IsMode m'
    → IsRole r'
    → x ++ (codes m ++ (codes "_" ++ codes r)) ≡ y ++ (codes m' ++ (codes "_" ++ codes r'))
    → (m ≡ m') × (r ≡ r')
ends_apart x y m r m' r' im ir im' ir' e =
    let back = λ (z : Bytes) (n q : String).
      rev-append z (codes n ++ (codes "_" ++ codes q)) []
      ∙ rev-append (codes n) (codes "_" ++ codes q) (rev z []) in
    let whole : rev (codes r) (95 ∷ rev (codes m) (rev x []))
        ≡ rev (codes r') (95 ∷ rev (codes m') (rev y [])) =
      sym (back x m r) ∙ (ap (λ (z : Bytes). rev z []) e ∙ back y m' r') in
    let same = role_at_end r r' _ _ ir ir' whole in
    let aligned : rev (codes r') (95 ∷ rev (codes m) (rev x []))
        ≡ rev (codes r') (95 ∷ rev (codes m') (rev y [])) =
      rw same at whole in
    let cut = ap (drop 1) (
      rev_injective (codes r') {a = 95 ∷ rev (codes m) (rev x [])}
        {b = 95 ∷ rev (codes m') (rev y [])} aligned) in
    (mode_at_end m m' (rev x []) (rev y []) im im' cut, same)

in_front : (password : Bytes) (gestures : List Bytes) → Bytes
in_front password gestures = password ++ (codes "_" ++ (join_dash gestures ++ codes "_"))

context_cut :
    (password : Bytes) (gestures : List Bytes) (m r : String)
    → context_password password gestures m r
      ≡ in_front password gestures ++ (codes m ++ (codes "_" ++ codes r))
unfolding context_password in_front
context_cut password gestures m r = simp append_assoc

-- If the contexts of two supported slots are the same, for any passwords and gestures, so are their
-- modes and roles.
pub context_password_injective :
    (p p' : Bytes) (g g' : List Bytes) (m r m' r' : String)
    → IsMode m
    → IsRole r
    → IsMode m'
    → IsRole r'
    → context_password p g m r ≡ context_password p' g' m' r'
    → (m ≡ m') × (r ≡ r')
context_password_injective p p' g g' m r m' r' im ir im' ir' e =
    ends_apart (in_front p g) (in_front p' g') m r m' r' im ir im' ir'
      (sym (context_cut p g m r) ∙ (e ∙ context_cut p' g' m' r'))

mode_in_front :
    (m m' : String) (x y : Bytes) → IsMode m → IsMode m' → codes m ++ x ≡ codes m' ++ y → m ≡ m'
mode_in_front m m' x y (inl a) (inl b) = λ e. a ∙ sym b
mode_in_front m m' x y (inl a) (inr b) = rw (a, b) (λ e. absurd (ground arith))
mode_in_front m m' x y (inr a) (inl b) = rw (a, b) (λ e. absurd (ground arith))
mode_in_front m m' x y (inr a) (inr b) = λ e. a ∙ sym b

role_in_front :
    (r r' : String) (x y : Bytes) → IsRole r → IsRole r' → codes r ++ x ≡ codes r' ++ y → r ≡ r'
role_in_front r r' x y (inl a) (inl b) = λ e. a ∙ sym b
role_in_front r r' x y (inl a) (inr b) = rw (a, b) (λ e. absurd (ground arith))
role_in_front r r' x y (inr a) (inl b) = rw (a, b) (λ e. absurd (ground arith))
role_in_front r r' x y (inr a) (inr b) = λ e. a ∙ sym b

append_cancel : (t x y : Bytes) → t ++ x ≡ t ++ y → x ≡ y
append_cancel t x y e = rw (drop-append t x, drop-append t y) at (ap (drop (length t)) e)

-- If the associated data of the records of two supported slots are the same, in containers of any
-- sizes, so are their modes and roles.
pub record_aad_injective :
    (l l' : ContainerLayout) (m r m' r' : String)
    → IsMode m
    → IsRole r
    → IsMode m'
    → IsRole r'
    → record_aad l m r ≡ record_aad l' m' r'
    → (m ≡ m') × (r ≡ r')
unfolding record_aad
record_aad_injective l l' m r m' r' im ir im' ir' e =
    let behind = append_cancel (codes "phasmid-record-v3:") _ _ e in
    let m_same = mode_in_front m m' _ _ im im' behind in
    let behind_mode = append_cancel (codes m') _ _ (rw m_same at behind) in
    (m_same, role_in_front r r' _ _ ir ir' (ap (drop 1) behind_mode))
