-- ===== src/Container/Spans.antt =====
-- `get_mode_span` and `get_slot_span`: where the spans lie.
use phantasm.Base.{◌+◌, ◌-◌, ◌/◌, ◌≤◌, String, ◌≡◌, ◌≢◌, ◌↔◌, ◌⊎◌, inl, inr, refl, arith, eq_iff}
use phantasm.Base.Except.{ok}
use phantasm.Container.{ContainerLayout, Span, open_role, purge_role, get_mode_span, get_slot_span}

abbrev pub IsMode : String → Type 0
IsMode mode = (mode ≡ "dummy") ⊎ (mode ≡ "secret")

abbrev pub IsRole : String → Type 0
IsRole role = (role ≡ open_role) ⊎ (role ≡ purge_role)

-- A span for each of the four slots, each beginning where the one before it ends.
pub record Tiling (l : ContainerLayout) : Type 0 where
  pub a : Span
  pub b : Span
  pub c : Span
  pub d : Span
  pub dummy_open : get_slot_span l "dummy" open_role ≡ ok a
  pub dummy_purge : get_slot_span l "dummy" purge_role ≡ ok b
  pub secret_open : get_slot_span l "secret" open_role ≡ ok c
  pub secret_purge : get_slot_span l "secret" purge_role ≡ ok d
  pub from_start : a.0 ≡ 0
  pub a_to_b : a.0 + a.1 ≡ b.0
  pub b_to_c : b.0 + b.1 ≡ c.0
  pub c_to_d : c.0 + c.1 ≡ d.0
  pub to_end : d.0 + d.1 ≡ l.container_size

-- For every container size there is a span for each of the four slots, the first begins at 0, each
-- ends where the next begins, and the last ends at the container's size.
pub get_slot_span-Tiling : (l : ContainerLayout) → Tiling l
unfolding get_slot_span
get_slot_span-Tiling l =
    let n = l.container_size in
    record {
      a = (0, n / 2 / 2);
      b = (0 + n / 2 / 2, n / 2 - n / 2 / 2);
      c = (n / 2, (n - n / 2) / 2);
      d = (n / 2 + (n - n / 2) / 2, n - n / 2 - (n - n / 2) / 2);
      dummy_open = refl;
      dummy_purge = refl;
      secret_open = refl;
      secret_purge = refl;
      from_start = refl;
      a_to_b = omega arith;
      b_to_c = omega arith;
      c_to_d = omega arith;
      to_end = omega arith;
    }

pub span_of :
    (l : ContainerLayout) (mode role : String)
    → IsMode mode
    → IsRole role
    → (span : Span) × (get_slot_span l mode role ≡ ok span)
unfolding get_slot_span
span_of l mode role (inl m) (inl r) = rw (m, r) (_, refl)
span_of l mode role (inl m) (inr r) = rw (m, r) (_, refl)
span_of l mode role (inr m) (inl r) = rw (m, r) (_, refl)
span_of l mode role (inr m) (inr r) = rw (m, r) (_, refl)

IsMode-of :
    (l : ContainerLayout) (mode role : String) {span : Span}
    → get_slot_span l mode role ≡ ok span
    → IsMode mode × IsRole role
unfolding get_slot_span
IsMode-of l mode role h =
    ground
      (arith, eq_iff mode "secret", eq_iff mode "dummy", eq_iff role "open", eq_iff role "purge")

-- A slot has a span exactly when its mode and its role are known ones.
pub get_slot_span-eq_ok :
    (l : ContainerLayout) (mode role : String)
    → ((span : Span) × (get_slot_span l mode role ≡ ok span)) ↔ (IsMode mode × IsRole role)
get_slot_span-eq_ok l mode role = (λ h. IsMode-of l mode role h.1, λ h. span_of l mode role h.0 h.1)

-- The spans of two slots that differ in mode or role do not overlap.
pub slot_spans_disjoint :
    (l : ContainerLayout) (m r m' r' : String) {a b : Span}
    → get_slot_span l m r ≡ ok a
    → get_slot_span l m' r' ≡ ok b
    → (m ≢ m') ⊎ (r ≢ r')
    → (a.0 + a.1 ≤ b.0) ⊎ (b.0 + b.1 ≤ a.0)
unfolding get_slot_span
slot_spans_disjoint l m r m' r' p q d = ground (
  arith,
  eq_iff m "secret",
  eq_iff m "dummy",
  eq_iff m' "secret",
  eq_iff m' "dummy",
  eq_iff r "open",
  eq_iff r "purge",
  eq_iff r' "open",
  eq_iff r' "purge",
)

pub mode_span_fits :
    (l : ContainerLayout) (mode : String) {a : Span}
    → get_mode_span l mode ≡ ok a
    → a.0 + a.1 ≤ l.container_size
unfolding get_mode_span
mode_span_fits l mode p = ground arith

pub slot_span_fits :
    (l : ContainerLayout) (mode role : String) {a : Span}
    → get_slot_span l mode role ≡ ok a
    → a.0 + a.1 ≤ l.container_size
unfolding get_slot_span
slot_span_fits l mode role p = ground arith

pub dummy_span : (l : ContainerLayout) → get_mode_span l "dummy" ≡ ok (0, l.container_size / 2)
unfolding get_mode_span
dummy_span l = refl

pub secret_span :
    (l : ContainerLayout)
    → get_mode_span l "secret" ≡ ok (l.container_size / 2, l.container_size - l.container_size / 2)
unfolding get_mode_span
secret_span l = refl

pub mode_span_cases :
    (l : ContainerLayout) (mode : String) {a : Span}
    → get_mode_span l mode ≡ ok a
    → ((mode ≡ "dummy") × (a ≡ (0, l.container_size / 2)))
      ⊎ ((mode ≡ "secret") × (a ≡ (l.container_size / 2, l.container_size - l.container_size / 2)))
unfolding get_mode_span
mode_span_cases l mode p = ground (arith, eq_iff mode "secret", eq_iff mode "dummy")

-- A slot lies in its mode's span, and that in the container.
pub slot_span_bounds :
    (l : ContainerLayout) (mode role : String) {a b : Span}
    → get_mode_span l mode ≡ ok a
    → get_slot_span l mode role ≡ ok b
    → (a.0 ≤ b.0) × (b.0 + b.1 ≤ a.0 + a.1) × (a.0 + a.1 ≤ l.container_size)
unfolding get_slot_span
slot_span_bounds l mode role p q = ground arith
