-- ===== src/PacketTask/Admission/Bounds.antt =====
-- The wall time of a packet (src/inference_grid/board/packet_task.py), and the bound of the ledger.
use inference_grid.Prelude.{
  ℕ, String, Bool, false, ◌≡◌, refl, sym, ap, subst, ◌∙◌, ◌≤◌, ◌+◌, ◌*◌, some, List, [], ◌∷◌, All,
  length, is_empty, arith, Option-cases, inl, inr,
}
use inference_grid.Prelude.Int.{pos, ◌+ℤ◌}
use inference_grid.Value.{
  Value, num, int, obj, of_dict, Dict, as_dict, as_list, get?, get_value, or_else,
}
use inference_grid.Result.{ok, chain}
use inference_grid.BoardTask.{bounded_int, TaskFields}
use inference_grid.BoardTask.Validity.{IsBudget}
use inference_grid.PacketTask.{
  PacketSpec, validate_packet_task, packet_dict, core_of, int_or, spec_dict,
}
use inference_grid.PacketTask.Validity.{
  IsPacket, IsGate, AreGates, Within, validate_packet_task-IsPacketTask,
}
use inference_grid.PacketTask.Fields.{get?-core_of, get?-packet_dict, spec-packet_dict}
use inference_grid.PacketTask.Admission.{gate_timeout, sum_timeouts, packet_wall_seconds}

abbrev pub sum : List ℕ → ℕ
sum [] = 0
sum (n ∷ ns) = n + sum ns

bounded_int-num :
    (lo hi : ℕ) (v : Value) (n : ℕ) → bounded_int lo hi v ≡ some n → v ≡ num (int (pos n))
unfolding bounded_int
bounded_int-num lo hi (num (int (pos m))) n h =
    let same : m ≡ n = ground arith in ap (λ x. num (int (pos x))) same
bounded_int-num lo hi _ n h = cc

get_value-some :
    (k : String) (d : Dict) (v : Value)
    → get_value k d ≡ v
    → (v ≡ Value.null → ⊥)
    → get? k d ≡ some v
get_value-some k d v h given = elim (Option-cases (get? k d)) [
  | inl absent ↦ absurd (given (sym h ∙ ap (λ o. or_else o Value.null) absent))
  | inr (w, e) ↦ e ∙ ap some (sym (ap (λ o. or_else o Value.null) e) ∙ h)
]

pos-add : (a b : ℕ) → pos a +ℤ pos b ≡ pos (a + b)
unfolding ◌+ℤ◌
pos-add a b = ground arith

gate_timeout-gate_seconds : (v : Value) (n : ℕ) → IsGate v n → gate_timeout v ≡ ok (pos n)
unfolding gate_timeout chain
gate_timeout-gate_seconds v n g = elim (Option-cases (get? "timeout" g.gate)) [
  | inl absent ↦
      let same : some 1800 ≡ some n = subst (λ o. int_or 1800 1 3600 o ≡ some n) absent g.timed in
      rw (g.object, absent) (cc)
  | inr (w, e) ↦
      let value =
        bounded_int-num 1 3600 w n (subst (λ o. int_or 1800 1 3600 o ≡ some n) e g.timed) in
      rw (g.object, e, value) refl
]

sum_timeouts-sum :
    (vs : List Value) (ns : List ℕ) → AreGates vs ns → sum_timeouts vs ≡ ok (pos (sum ns))
unfolding sum_timeouts chain ◌+ℤ◌
sum_timeouts-sum [] [] h = refl
sum_timeouts-sum (v ∷ vs) (n ∷ ns) h =
    rw (gate_timeout-gate_seconds v n h.0, sum_timeouts-sum vs ns h.1) (ap ok (pos-add n (sum ns)))
sum_timeouts-sum [] (n ∷ ns) h = absurd h
sum_timeouts-sum (v ∷ vs) [] h = absurd h

IsPacket-IsBudget :
    (is_decimal : ℕ → Bool) (raw : Dict) (p : PacketSpec) (h : IsPacket is_decimal raw p)
    → (v : Value) × (get? "budget" (packet_dict raw p) ≡ some v) × IsBudget v
IsPacket-IsBudget is_decimal raw p h =
    let b = h.task.budget in
    let read : get_value "budget" (core_of raw) ≡ h.core.budget =
      ap (λ (f : TaskFields). f.budget) (sym h.read) in
    let given : get? "budget" (core_of raw) ≡ some h.core.budget =
      get_value-some "budget" (core_of raw) h.core.budget read (λ e. cc (e, b.object)) in
    (
      h.core.budget,
      get?-packet_dict "budget" raw p h.core.budget refl
          (sym (get?-core_of "budget" raw refl refl refl) ∙ given),
      b,
    )

AreGates-All : (vs : List Value) (ns : List ℕ) → AreGates vs ns → All (Within 1 3600) ns
AreGates-All [] [] h = tt
AreGates-All (v ∷ vs) (n ∷ ns) h = (h.0.within, AreGates-All vs ns h.1)
AreGates-All [] (n ∷ ns) h = absurd h
AreGates-All (v ∷ vs) [] h = absurd h

AreGates-length : (vs : List Value) (ns : List ℕ) → AreGates vs ns → length ns ≡ length vs
AreGates-length [] [] h = refl
AreGates-length (v ∷ vs) (n ∷ ns) h = omega (arith, AreGates-length vs ns h.1)
AreGates-length [] (n ∷ ns) h = absurd h
AreGates-length (v ∷ vs) [] h = absurd h

sum-bounds :
    (ns : List ℕ) → All (Within 1 3600) ns → (length ns ≤ sum ns) × (sum ns ≤ 3600 * length ns)
sum-bounds [] h = (omega arith, omega arith)
sum-bounds (n ∷ ns) (within, rest) =
    (omega (arith, sum-bounds ns rest, within), omega (arith, sum-bounds ns rest, within))

wall_total :
    (out fields : Dict) (p : PacketSpec) (b : Value) (vs : List Value) (w n : ℕ)
    → get? "spec" out ≡ some (obj (of_dict (spec_dict p)))
    → get? "budget" out ≡ some b
    → as_dict b ≡ some fields
    → get? "wall_seconds" fields ≡ some (num (int (pos w)))
    → as_list p.gates ≡ some vs
    → sum_timeouts vs ≡ ok (pos n)
    → packet_wall_seconds out ≡ ok (pos (w + n + p.rounds * 60))
unfolding packet_wall_seconds chain
wall_total out fields p b vs w n spec budget object wall gates seconds =
    rw (spec, budget, object, wall, gates, seconds)
      (rw (pos-add w n) (ap ok (pos-add (w + n) (p.rounds * 60))))

-- The gates of a task.
abbrev pub gates_of : Dict → List Value
gates_of out =
    or_else (as_list (get_value "gates" (or_else (as_dict (get_value "spec" out)) []))) []

gates_of-packet_dict :
    (raw : Dict) (p : PacketSpec) (vs : List Value)
    → as_list p.gates ≡ some vs
    → gates_of (packet_dict raw p) ≡ vs
gates_of-packet_dict raw p vs h = rw (spec-packet_dict raw p, h) refl

is_empty-length : {A : Type 0} (xs : List A) → is_empty xs ≡ false → 1 ≤ length xs
is_empty-length [] h = cc
is_empty-length (x ∷ xs) h = omega arith

record IsTimed (out : Dict) (gates : ℕ) : Type 0 where
  seconds : ℕ
  total : packet_wall_seconds out ≡ ok (pos seconds)
  low : (1 ≤ gates) × (90 + gates ≤ seconds)
  high : seconds ≤ 4080 + 3600 * gates

packet-IsTimed :
    (is_decimal : ℕ → Bool) (raw : Dict) (p : PacketSpec)
    → IsPacket is_decimal raw p
    → IsTimed (packet_dict raw p) (length (gates_of (packet_dict raw p)))
packet-IsTimed is_decimal raw p h =
    let (b, budgeted, budget) = IsPacket-IsBudget is_decimal raw p h in
    let (vs, listed, some_gates, gates) = h.spec.gates in
    let wall = budget.wall_seconds in
    let counted = gates_of-packet_dict raw p vs listed in
    let same = AreGates-length vs p.gate_times gates in
    let timed =
      get_value-some "wall_seconds" budget.fields (num (int (pos wall.n))) wall.value (λ e. cc) in
    let sums = sum-bounds p.gate_times (AreGates-All vs p.gate_times gates) in
    let many = is_empty-length vs some_gates in
    record {
      seconds = wall.n + sum p.gate_times + p.rounds * 60;
      total =
          wall_total (packet_dict raw p) budget.fields p b vs wall.n (sum p.gate_times)
            (spec-packet_dict raw p) budgeted budget.object timed listed
            (sum_timeouts-sum vs p.gate_times gates);
      low =
          rw counted
            (omega (arith, same, many), omega (arith, same, sums, wall.bounds, h.spec.rounds));
      high = rw counted (omega (arith, same, sums, wall.bounds, h.spec.rounds));
    }

-- Of the task that is written back.
abbrev Timed : Dict → Type 0
Timed out =
    (seconds : ℕ) × (packet_wall_seconds out ≡ ok (pos seconds))
    × (1 ≤ length (gates_of out))
    × (90 + length (gates_of out) ≤ seconds)
    × (seconds ≤ 4080 + 3600 * length (gates_of out))

-- The wall time of a checked packet task is a number of seconds, so `packet_wall_seconds` never
-- raises on one: with its n gates, of which there is at least one, it is at least 90 and n, and at
-- most an hour, an hour for each gate and eight minutes.
pub packet_wall_seconds-bounds :
    (is_decimal : ℕ → Bool) (v : Value) (out : Dict)
    → (valid : validate_packet_task is_decimal v ≡ ok out)
    → (seconds : ℕ) × (packet_wall_seconds out ≡ ok (pos seconds))
      × (1 ≤ length (gates_of out))
      × (90 + length (gates_of out) ≤ seconds)
      × (seconds ≤ 4080 + 3600 * length (gates_of out))
packet_wall_seconds-bounds is_decimal v out valid =
    let h = validate_packet_task-IsPacketTask is_decimal v out valid in
    let t = packet-IsTimed is_decimal h.raw h.spec h.packet in
    subst Timed (sym h.written) (t.seconds, t.total, t.low.0, t.low.1, t.high)
