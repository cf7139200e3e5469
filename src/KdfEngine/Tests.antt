-- ===== src/KdfEngine/Tests.antt =====
-- Contexts and the access key at concrete inputs.
use phantasm.Base.{◌≡◌, String, refl, inl, [], ◌∷◌, codes}
use phantasm.Storage.{World}
use phantasm.Storage.Sample.{holding}
use phantasm.KdfEngine.{context_password}
use phantasm.KdfEngine.Context.{context_password_injective}

context_of_gestures :
    context_password (codes "pw") (codes "up" ∷ codes "left" ∷ []) "dummy" "open"
    ≡ codes "pw_up-left_dummy_open"
unfolding context_password
context_of_gestures = refl

context_password_injective_example :
    (◌≡◌ {A = String} "dummy" "dummy") × (◌≡◌ {A = String} "open" "open")
context_password_injective_example =
    context_password_injective (codes "a_b") (codes "a") (codes "c" ∷ []) (codes "b_c" ∷ []) "dummy"
      "open" "dummy" "open" (inl refl) (inl refl) (inl refl) (inl refl)
      (unfold context_password in refl)

abbrev world : World
world = holding []
