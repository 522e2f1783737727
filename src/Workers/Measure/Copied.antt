-- ===== src/Workers/Measure/Copied.antt =====
-- What the copying worker has done when it returns.
use mm_mem.Base.{
  ℕ, suc, ◌+◌, ◌*◌, ◌/◌, ◌%◌, ◌^◌, ◌≤◌, ◌<◌, ◌≡◌, refl, sym, ap, ◌∙◌, ◌⊎◌, inl, inr, some, arith,
  add64, mul64, add64-lt, mul64-lt,
}
use native.Mathlib.Nat.{div-add-mod'}
use mathlib.Core.Path.{fun_ext}
use mm_mem.Base.Returns.{Returns, returns, value_of, via}
use mm_mem.MemRegion.Memory.{Memory}
use mm_mem.MemRegion.Region.{MemRegion, get_start_point}
use mm_mem.MemRegion.Region.Construct.{div_or_trap-pos}
use mm_mem.Workers.Timer.{Clock}
use mm_mem.Workers.Measure.Moved.{
  moved, AreApart, IsMemcpy, least, moved_on, least_left, more_copied, moved-zero,
}
use mm_mem.Workers.Packet.{Packet}
use mm_mem.Workers.Checkpoints.{Progress, passes}
use mm_mem.Workers.Checkpoints.Ends.{IsTimely}
use mm_mem.Workers.Checkpoints.Keeps.{passes-keeps}
use mm_mem.Workers.Measure.{target_ns, copy_plan, copy_call, copy_fragment, started}
use mm_mem.Workers.Measure.Ended.{copy_fragment-Returns}

-- In front of the call with the number `i` of a pass of `count` calls: what has been counted, and
-- what has been copied.
record HasCopied (m : Memory) (dst src size count i finished : ℕ) (m' : Memory) : Type 0 where
  calls : ℕ
  reported : finished ≡ calls % 2 ^ 64
  stage : (calls ≡ i) ⊎ (count ≤ calls)
  copied : m' ≡ moved m dst src (least calls count * size)

-- The areas of a fragment lie in those of all fragments.
record IsFragment (dst src size count : ℕ) : Type 0 where
  apart : AreApart dst src (count * size)
  dst_fits : dst + count * size < 2 ^ 64
  src_fits : src + count * size < 2 ^ 64

module _ (kernel_memcpy : (dst src size : ℕ) → Memory → Memory) (memcpy : IsMemcpy kernel_memcpy)
    (p : Packet) (dst src : MemRegion) (count : ℕ)
    (fragments : IsFragment (get_start_point dst) (get_start_point src) p.fragment_size count) where
  abbrev to : ℕ
  to = get_start_point dst

  abbrev from : ℕ
  from = get_start_point src

  abbrev size : ℕ
  size = p.fragment_size

  -- A call copies its fragment.
  copy_call-moved :
      (i : ℕ) (m : Memory)
      → i * size + size ≤ count * size
      → copy_call kernel_memcpy p dst src i m ≡ moved m (to + i * size) (from + i * size) size
  unfolding copy_call
  copy_call-moved i m inside =
      let offset : mul64 size i ≡ i * size =
        mul64-lt size i (omega (arith, fragments.dst_fits)) ∙ omega arith in
      rw
        (
          offset,
          add64-lt to (i * size) (omega (arith, fragments.dst_fits)),
          add64-lt from (i * size) (omega (arith, fragments.src_fits)),
        )
        (fun_ext
          λ b. memcpy (to + i * size) (from + i * size) size m b (omega (arith, fragments.apart)))

  call-HasCopied :
      (m : Memory) (i finished : ℕ) (m' : Memory)
      → i < count
      → HasCopied m to from size count i finished m'
      → HasCopied m to from size count
          (suc i)
          (add64 finished 1)
          (copy_call kernel_memcpy p dst src i m')
  unfolding add64
  call-HasCopied m i finished m' early h =
      let (ahead, bound, inside, more) = more_copied h.calls count i size h.stage early in
      record {
        calls = suc h.calls;
        reported = omega (arith, h.reported);
        stage = omega (arith, h.stage);
        copied =
            copy_call-moved i m' inside
            ∙ ap (λ t. moved t (to + i * size) (from + i * size) size) h.copied
            ∙ fun_ext (λ b.
              moved_on m to from (count * size) (least h.calls count * size) (i * size) size b
                fragments.apart ahead bound inside)
            ∙ ap (moved m to from) more;
      }

copy_fragment-passes :
    (fuel : ℕ) (clock : Clock) (kernel_memcpy : (dst src size : ℕ) → Memory → Memory) (p : Packet)
    (dst src : MemRegion) (m : Memory)
    → 0 < p.fragment_size
    → copy_fragment fuel clock kernel_memcpy p dst src m
      ≡ passes clock
          (copy_plan p)
          (copy_call kernel_memcpy p dst src)
          fuel
          (dst.active_size / p.fragment_size)
          (λ m'. m')
          m
          (started clock (copy_plan p))
unfolding copy_fragment
copy_fragment-passes fuel clock kernel_memcpy p dst src m pos =
    rw (div_or_trap-pos dst.active_size p.fragment_size pos, copy_fragment) refl

-- Whenever the copying worker returns.
copy_fragment_copied :
    (fuel : ℕ) (clock : Clock) (kernel_memcpy : (dst src size : ℕ) → Memory → Memory) (p : Packet)
    (dst src : MemRegion) (m last : Memory) (s : Progress)
    → IsMemcpy kernel_memcpy
    → IsFragment
        (get_start_point dst)
        (get_start_point src)
        p.fragment_size
        (dst.active_size / p.fragment_size)
    → 0 < p.fragment_size
    → copy_fragment fuel clock kernel_memcpy p dst src m ≡ some (last, s)
    → (calls : ℕ) × (0 < calls)
      × (s.finished ≡ calls % 2 ^ 64)
      × (last
          ≡ moved m
              (get_start_point dst)
              (get_start_point src)
              (least calls (dst.active_size / p.fragment_size) * p.fragment_size))
unfolding started
copy_fragment_copied fuel clock kernel_memcpy p dst src m last s memcpy fragments pos e =
    let count = dst.active_size / p.fragment_size in
    let holds = HasCopied m (get_start_point dst) (get_start_point src) p.fragment_size count in
    let (j, some_call, within, h) =
      passes-keeps clock (copy_plan p) (copy_call kernel_memcpy p dst src) count holds
        (λ i f b early h.
          call-HasCopied kernel_memcpy memcpy p dst src count fragments m i f b early h)
        (holds 0) fuel (λ m'. m') m (started clock (copy_plan p)) (last, s) (λ f b h. h)
        (λ f b h. record {
          calls = h.calls;
          reported = h.reported;
          stage = again h.stage;
          copied = h.copied;
        })
        (record {
          calls = 0;
          reported = refl;
          stage = inl refl;
          copied = moved-zero m (get_start_point dst) (get_start_point src) _ (nothing count);
        })
        (sym (copy_fragment-passes fuel clock kernel_memcpy p dst src m pos) ∙ e) in
    (h.calls, omega (arith, h.stage, some_call, within), h.reported, h.copied)
  where
    again : {calls count : ℕ} → (calls ≡ count) ⊎ (count ≤ calls) → (calls ≡ 0) ⊎ (count ≤ calls)
    again (inl same) = inr (omega (arith, same))
    again (inr full) = inr full

    nothing : (count : ℕ) → least 0 count * p.fragment_size ≡ 0
    nothing count = ap (λ n. n * p.fragment_size) (least_left 0 count (omega arith)) ∙ omega arith

-- If the fragment is positive and fits into the active part of the destination, which has no byte
-- in common with as much of the source, both below 2^64, and memcpy copies between areas that do
-- not overlap and leaves all other bytes alone, then on a clock that does not go back and stays
-- below 2^63, whose reading `last` > 0 is past the target before a count wraps around, for every
-- fuel of at least `last` times one more than the distance of the checkpoints, copy_fragment
-- returns with the time over after at least one call; it reports its calls, modulo 2^64, and the
-- memory is as before but for the fragments of these calls, as many as fit, which are copied from
-- the source.
pub copy_fragment-Copies :
    (fuel last : ℕ) (clock : Clock) (p : Packet) (m : Memory)
    (kernel_memcpy : (dst src size : ℕ) → Memory → Memory) (dst src : MemRegion)
    → IsMemcpy kernel_memcpy
    → 0 < p.fragment_size
    → p.fragment_size ≤ dst.active_size
    → AreApart (get_start_point dst) (get_start_point src) dst.active_size
    → get_start_point dst + dst.active_size < 2 ^ 64
    → get_start_point src + dst.active_size < 2 ^ 64
    → IsTimely clock (copy_plan p) last
    → last + last * (copy_plan p).chkpt_size ≤ fuel
    → Returns
        (λ (a, s).
          (target_ns p ≤ s.timer.elapsed_time_ns)
          × ((calls : ℕ) × (0 < calls)
              × (s.finished ≡ calls % 2 ^ 64)
              × (a
                  ≡ moved m
                      (get_start_point dst)
                      (get_start_point src)
                      (least calls (dst.active_size / p.fragment_size) * p.fragment_size))))
        (copy_fragment fuel clock kernel_memcpy p dst src m)
copy_fragment-Copies fuel last clock p m kernel_memcpy dst src memcpy pos room apart dst_fits
      src_fits ok enough =
    let (result, e, late) =
      value_of
        (copy_fragment-Returns fuel last clock p m kernel_memcpy dst src pos room ok enough) in
    let all = div-add-mod' dst.active_size p.fragment_size in
    via e (
      returns (
        late,
        copy_fragment_copied fuel clock kernel_memcpy p dst src m result.0 result.1 memcpy
            (record {
              apart = omega (arith, apart, all);
              dst_fits = omega (arith, dst_fits, all);
              src_fits = omega (arith, src_fits, all);
            })
            pos e,
      ))
