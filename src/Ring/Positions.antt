-- ===== src/Ring/Positions.antt =====
-- How the positions of a ring move: the slots behind a wrapping sum, and the window after entries
-- are put in or taken out.
use Prim.Native.Nat.{◌∣◌}
use mathlib.Core.Path.{ap₂, subst}
use native.Mathlib.Nat.{mod-mod_of_dvd}
use skp.Common.{
  ℕ, zero, suc, ◌+◌, ◌-◌, ◌%◌, ◌^◌, ◌≤◌, ◌<◌, ◌≡◌, refl, sym, ap, ◌∙◌, List, ◌∷◌, ◌++◌, arith,
  length, get_or, take, drop, length-take,
}
use skp.Common.Bits.{pow-dvd-pow}
use skp.Common.Word.{add32, sub32, u32_mod}
use skp.Ring.Window.{window, put, window_slot, put_slot, window-put, length-window}
use skp.Ring.Copy.{enqueue_ptrs, dequeue_ptrs}
use skp.Ring.Copy.Ends.{enqueue_ptrs-put, dequeue_ptrs-splice, span-take, splice-drop}

-- Wrapping at 2 ^ 32 does not change the slot.
wrap_slot : (k p : ℕ) → k ≤ 31 → p % u32_mod % 2 ^ k ≡ p % 2 ^ k
wrap_slot k p h =
    mod-mod_of_dvd (2 ^ k) p (subst (λ t. 2 ^ k ∣ 2 ^ t) whole (pow-dvd-pow k (32 - k)))
  where
    whole : k + (32 - k) ≡ 32
    whole = omega arith

module _ (s : ℕ) (ring : List ℕ) where
  window-take : (h m n : ℕ) → m ≤ n → take m (window s ring h n) ≡ window s ring h m
  window-take h zero n le = refl
  window-take h (suc m) zero le = absurd (omega arith)
  window-take h (suc m) (suc n) le =
      ap (◌∷◌ (get_or ring (h % s) 0)) (window-take (h + 1) m n (omega arith))

  window-drop : (h m n : ℕ) → m ≤ n → drop m (window s ring h n) ≡ window s ring (h + m) (n - m)
  window-drop h zero n le = ap₂ (window s ring) (omega arith) (omega arith)
  window-drop h (suc m) zero le = absurd (omega arith)
  window-drop h (suc m) (suc n) le =
      window-drop (h + 1) m n (omega arith) ∙ ap₂ (window s ring) (omega arith) (omega arith)

-- The producer's tail lies as many positions behind the consumer's as entries are used.
tail_used : (pt ct : ℕ) → pt < u32_mod → ct < u32_mod → pt ≡ (ct + sub32 pt ct) % u32_mod
tail_used pt ct hp hc = omega arith

-- Moving a tail changes the count by as much.
pub used_put :
    (pt ct m : ℕ)
    → pt < u32_mod
    → ct < u32_mod
    → sub32 pt ct + m < u32_mod
    → sub32 (add32 pt m) ct ≡ sub32 pt ct + m
used_put pt ct m hp hc h = omega arith

pub used_take :
    (pt ct m : ℕ)
    → pt < u32_mod
    → ct < u32_mod
    → m ≤ sub32 pt ct
    → sub32 pt (add32 ct m) ≡ sub32 pt ct - m
used_take pt ct m hp hc h = omega arith

module _ (k pt ct : ℕ) (ring objs : List ℕ) (k_le : k ≤ 31) (stored : length ring ≡ 2 ^ k)
    (pt_lt : pt < u32_mod) (ct_lt : ct < u32_mod) where
  -- What ENQUEUE_PTRS writes stands behind what was there.
  pub window-enqueue_ptrs :
      (m : ℕ)
      → sub32 pt ct + m < 2 ^ k
      → m ≤ length objs
      → window (2 ^ k) (enqueue_ptrs (2 ^ k) (2 ^ k - 1) ring pt objs m) ct (sub32 pt ct + m)
        ≡ window (2 ^ k) ring ct (sub32 pt ct) ++ take m objs
  window-enqueue_ptrs m room fits =
      ap (λ r. window (2 ^ k) r ct (used + m))
        (enqueue_ptrs-put k pt m k_le (omega arith) ring objs
          ∙ ap (put (2 ^ k) ring pt) (span-take objs m fits)
          ∙ put_slot (2 ^ k) ring pt (ct + used) (take m objs) slot)
      ∙ ap (λ t. window (2 ^ k) (put (2 ^ k) ring (ct + used) (take m objs)) ct (used + t))
          (sym taken)
      ∙ window-put (2 ^ k) ring ct used (take m objs) stored (omega (arith, taken))
    where
      used : ℕ
      used = sub32 pt ct

      taken : length (take m objs) ≡ m
      taken = omega (arith, length-take m objs)

      slot : pt % 2 ^ k ≡ (ct + used) % 2 ^ k
      slot = ap (λ t. t % 2 ^ k) (tail_used pt ct pt_lt ct_lt) ∙ wrap_slot k (ct + used) k_le

  -- What is left behind the entries that are taken out.
  pub window_advance :
      (m : ℕ)
      → m ≤ sub32 pt ct
      → window (2 ^ k) ring (add32 ct m) (sub32 pt (add32 ct m))
        ≡ drop m (window (2 ^ k) ring ct (sub32 pt ct))
  window_advance m le =
      ap (window (2 ^ k) ring (add32 ct m)) (used_take pt ct m pt_lt ct_lt le)
      ∙ window_slot (2 ^ k) ring (add32 ct m) (ct + m) (sub32 pt ct - m) (wrap_slot k (ct + m) k_le)
      ∙ sym (window-drop (2 ^ k) ring ct m (sub32 pt ct) le)

  -- What DEQUEUE_PTRS hands out.
  pub dequeue_ptrs-take :
      (m : ℕ)
      → m ≤ sub32 pt ct
      → m < 2 ^ k
      → m ≤ length objs
      → dequeue_ptrs (2 ^ k) (2 ^ k - 1) ring ct objs m
        ≡ take m (window (2 ^ k) ring ct (sub32 pt ct)) ++ drop m objs
  dequeue_ptrs-take m le small fits =
      dequeue_ptrs-splice k ct m k_le small ring objs
      ∙ splice-drop objs (window (2 ^ k) ring ct m) (omega (arith, size))
      ∙ ap₂ (λ l t. l ++ drop t objs) (sym (window-take (2 ^ k) ring ct m (sub32 pt ct) le)) size
    where
      size : length (window (2 ^ k) ring ct m) ≡ m
      size = length-window (2 ^ k) ring ct m
