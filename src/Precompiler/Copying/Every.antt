-- ===== src/Precompiler/Copying/Every.antt =====
-- `ppoutput` of ocesql/ppout.c comes to every statement.
use cobol.Prelude.{
  All, Bool, Bool-cases, Bytes, List, [], ap, arith, false, if◌then◌else◌, inl, inr, length, refl,
  suc, true, ℕ, ◌++◌, ◌+◌, ◌<◌, ◌==◌, ◌∷◌, ◌≡◌, ◌≤◌,
}
use mathlib.Core.Path.{subst}
use cobol.Util.{cstr}
use cobol.Precompiler.Copying.{
  Placed, Written, copied, generated, line_feed, Position, com_readline, has_mark, is_end, within,
  advance, inside_step, behind_step, copy_step, ppoutput,
}

-- The statements whose calls are written, in order.
pub generated_of : List Written → List Placed
generated_of [] = []
generated_of (copied s ∷ ws) = generated_of ws
generated_of (generated l ∷ ws) = l ∷ generated_of ws
generated_of (line_feed ∷ ws) = generated_of ws

-- Behind `n` lines the statement is still to come to its end; the mark at the end of
-- WORKING-STORAGE has one line, which is still to come.
pub record IsReady (n : ℕ) (l : Placed) : Type 0 where
  pub in_order : l.start_line ≤ l.end_line
  pub unfinished : n ≤ l.end_line
  pub mark_ahead : is_end l ≡ true → (n < l.start_line) × (l.start_line ≡ l.end_line)

-- Each of the statements is still to come one line behind the end of the one before, and the last
-- ends before the line `total`.
unfoldable pub AreFollowing : ℕ → Placed → List Placed → Type 0
AreFollowing total l [] = l.end_line < total
AreFollowing total l (k ∷ ks) = IsReady (l.end_line + 1) k × AreFollowing total k ks

-- A line that does not contain the marks of included files.
abbrev pub IsUnmarked : Bytes → Type 0
IsUnmarked t = (inbuff : Bytes) → has_mark (cstr (com_readline t inbuff)) ≡ false

generated_of-append :
    (vs ws : List Written) → generated_of (vs ++ ws) ≡ generated_of vs ++ generated_of ws
unfolding generated_of
generated_of-append [] ws = refl
generated_of-append (copied s ∷ vs) ws = generated_of-append vs ws
generated_of-append (generated l ∷ vs) ws = ap (◌∷◌ l) (generated_of-append vs ws)
generated_of-append (line_feed ∷ vs) ws = generated_of-append vs ws

last_bound :
    (total : ℕ) (l : Placed) (ls : List Placed) → AreFollowing total l ls → l.end_line < total
unfolding AreFollowing
last_bound total l [] f = f
last_bound total l (k ∷ ks) (r, f) =
    let h = last_bound total k ks f in let u = r.unfinished in omega (arith, h, u)

-- What a step generates, and where it leaves the list.
abbrev Steps : List Written × (Bytes × Position) → List Placed → Position → Type 0
Steps (w, (b, q)) gs p = (generated_of w ≡ gs) × (q ≡ p)

-- One line, and the rest of the loop.
loop_step :
    (t : Bytes) (ts : List Bytes) (n : ℕ) (inbuff : Bytes) (p q : Position) (gs hs : List Placed)
    → Steps (copy_step false (suc n) (com_readline t inbuff) p) gs q
    → ((b : Bytes) → generated_of (ppoutput ts (suc n) b q) ≡ hs)
    → generated_of (ppoutput (t ∷ ts) n inbuff p) ≡ gs ++ hs
unfolding ppoutput
loop_step t ts n inbuff p q gs hs (g, e) r =
    let s = copy_step false (suc n) (com_readline t inbuff) p in
    rw (generated_of-append s.0 (ppoutput ts (suc n) s.1.0 s.1.1), g, e, r s.1.0) refl

-- A line that is neither in the statement nor behind it.
quiet_step :
    (eof : Bool) (n : ℕ) (inbuff : Bytes) (p : Position)
    → within p.0 n ≡ false
    → (n == p.0.end_line + 1) ≡ false
    → Steps (copy_step eof n inbuff p) [] p
unfolding copy_step generated_of
quiet_step eof n inbuff p w e = elim (Bool-cases (has_mark (cstr inbuff))) [
  | inl m ↦ rw m (refl, refl)
  | inr m ↦ rw (m, w, e) (refl, refl)
]

inside_Steps :
    (n : ℕ) (inbuff : Bytes) (p : Position)
    → has_mark (cstr inbuff) ≡ false
    → within p.0 n ≡ true
    → Steps (copy_step false n inbuff p) (if is_end p.0 then p.0 ∷ [] else []) p
unfolding copy_step inside_step generated_of
inside_Steps n inbuff p m w = elim (Bool-cases (is_end p.0)) [
  | inl e ↦ rw (m, w, e) (refl, refl)
  | inr e ↦ rw (m, w, e) (refl, refl)
]

behind_Steps :
    (n : ℕ) (inbuff : Bytes) (p : Position)
    → has_mark (cstr inbuff) ≡ false
    → within p.0 n ≡ false
    → n ≡ p.0.end_line + 1
    → Steps (copy_step false n inbuff p) (if is_end p.0 then [] else p.0 ∷ []) (advance p)
unfolding copy_step behind_step generated_of
behind_Steps n inbuff p m w h =
    let k : (n == p.0.end_line + 1) ≡ true = ground (arith, h) in
    elim (Bool-cases (is_end p.0)) [
      | inl e ↦ rw (m, w, k, e) (refl, refl)
      | inr e ↦ rw (m, w, k, e) (refl, refl)
    ]

-- Behind the last statement nothing more is generated.
done :
    (ts : List Bytes) (n : ℕ) (inbuff : Bytes) (l : Placed)
    → l.end_line < n
    → generated_of (ppoutput ts n inbuff (l, [])) ≡ []
unfolding ppoutput
done [] n inbuff l h =
    (quiet_step true (suc n) inbuff (l, []) (ground (arith, h)) (ground (arith, h))).0
done (t ∷ ts) n inbuff l h =
    loop_step t ts n inbuff (l, []) (l, []) [] []
      (quiet_step false (suc n) (com_readline t inbuff) (l, []) (ground (arith, h))
        (ground (arith, h)))
      (λ b. done ts (suc n) b l (omega (arith, h)))

-- With a statement ahead, or with the mark that was just passed.
abbrev Waiting : List Bytes → Type 0
Waiting ts =
    (n : ℕ) (inbuff : Bytes) (l : Placed) (ls : List Placed)
    → IsReady n l
    → AreFollowing (n + length ts) l ls
    → generated_of (ppoutput ts n inbuff (l, ls)) ≡ l ∷ ls

abbrev Passing : List Bytes → Type 0
Passing ts =
    (n : ℕ) (inbuff : Bytes) (l : Placed) (ls : List Placed)
    → is_end l ≡ true
    → n ≡ l.end_line
    → AreFollowing (n + length ts) l ls
    → generated_of (ppoutput ts n inbuff (l, ls)) ≡ ls

-- Behind the last line of a statement.
follow :
    (ts : List Bytes)
    → Waiting ts
    → (n : ℕ) (b : Bytes) (l : Placed) (ls : List Placed) → n ≡ l.end_line
    → AreFollowing (suc n + length ts) l ls
    → generated_of (ppoutput ts (suc n) b (advance (l, ls))) ≡ ls
unfolding AreFollowing
follow ts wait n b l [] h f = done ts (suc n) b l (omega (arith, h))
follow ts wait n b l (k ∷ ks) h (r, f) =
    let e : l.end_line + 1 ≡ suc n = omega (arith, h) in
    wait (suc n) b k ks (subst (λ i. IsReady i k) e r) f

-- What the loop does with the next line.
abbrev line : Bytes → ℕ → Bytes → Placed → List Placed → List Written × (Bytes × Position)
line t n inbuff l ls = copy_step false (suc n) (com_readline t inbuff) (l, ls)

not_mark : (n : ℕ) (l : Placed) → IsReady n l → n ≡ l.end_line → is_end l ≡ false
not_mark n l r h = elim (Bool-cases (is_end l)) [
  | inl e ↦ let (a, b) = r.mark_ahead e in ground (arith, a, b, h)
  | inr e ↦ e
]

wait_step :
    (t : Bytes) (ts : List Bytes) → IsUnmarked t → Waiting ts → Passing ts → Waiting (t ∷ ts)
wait_step t ts u wait pass n inbuff l ls r f =
    let f' : AreFollowing (suc n + length ts) l ls =
      subst (λ i. AreFollowing i l ls) (omega arith) f in
    let o = r.in_order in
    let v = r.unfinished in
    elim (Bool-cases (within l (suc n))) [
      | inl w ↦
          let inside = inside_Steps (suc n) (com_readline t inbuff) (l, ls) (u inbuff) w in
          elim (Bool-cases (is_end l)) [
            | inl e ↦
                let (a, b) = r.mark_ahead e in
                let h : suc n ≡ l.end_line = ground (arith, w, a, b) in
                loop_step t ts n inbuff (l, ls) (l, ls) (l ∷ []) ls
                  (subst (λ c. Steps (line t n inbuff l ls) (if c then l ∷ [] else []) (l, ls)) e
                    inside)
                  (λ c. pass (suc n) c l ls e h f')
            | inr e ↦
                let ready : IsReady (suc n) l = record {
                  in_order = o;
                  unfinished = ground (arith, w);
                  mark_ahead = λ c. cc (e, c);
                } in
                loop_step t ts n inbuff (l, ls) (l, ls) [] (l ∷ ls)
                  (subst (λ c. Steps (line t n inbuff l ls) (if c then l ∷ [] else []) (l, ls)) e
                    inside)
                  (λ c. wait (suc n) c l ls ready f')
          ]
      | inr w ↦ elim (Bool-cases (n == l.end_line)) [
        | inl h ↦
            let g : n ≡ l.end_line = ground (arith, h) in
            let e : is_end l ≡ false = not_mark n l r g in
            let behind =
              behind_Steps (suc n) (com_readline t inbuff) (l, ls) (u inbuff) w
                (omega (arith, g)) in
            loop_step t ts n inbuff (l, ls) (advance (l, ls)) (l ∷ []) ls
              (subst
                (λ c. Steps (line t n inbuff l ls) (if c then [] else l ∷ []) (advance (l, ls))) e
                behind)
              (λ c. follow ts wait n c l ls g f')
        | inr h ↦
            let ready : IsReady (suc n) l = record {
              in_order = o;
              unfinished = ground (arith, h, v);
              mark_ahead = λ e. (ground (arith, w, h, v), (r.mark_ahead e).1);
            } in
            loop_step t ts n inbuff (l, ls) (l, ls) [] (l ∷ ls)
              (quiet_step false (suc n) (com_readline t inbuff) (l, ls) w (ground (arith, h)))
              (λ c. wait (suc n) c l ls ready f')
      ]
    ]

pass_step : (t : Bytes) (ts : List Bytes) → IsUnmarked t → Waiting ts → Passing (t ∷ ts)
pass_step t ts u wait n inbuff l ls e h f =
    let f' : AreFollowing (suc n + length ts) l ls =
      subst (λ i. AreFollowing i l ls) (omega arith) f in
    let behind =
      behind_Steps (suc n) (com_readline t inbuff) (l, ls) (u inbuff) (ground (arith, h))
        (omega (arith, h)) in
    loop_step t ts n inbuff (l, ls) (advance (l, ls)) [] ls
      (subst
        (λ b.
          Steps (copy_step false (suc n) (com_readline t inbuff) (l, ls)) (if b then [] else l ∷ [])
            (advance (l, ls)))
        e behind)
      (λ b. follow ts wait n b l ls h f')

comes : (ts : List Bytes) → All IsUnmarked ts → Waiting ts × Passing ts
comes [] u = (
  λ n inbuff l ls r f.
      let b = last_bound (n + 0) l ls f in let v = r.unfinished in ground (arith, b, v),
  λ n inbuff l ls e h f. let b = last_bound (n + 0) l ls f in ground (arith, b, h),
)
comes (t ∷ ts) (u, us) =
    let (wait, pass) = comes ts us in (wait_step t ts u wait pass, pass_step t ts u wait)

-- The calls of every statement are written, once each and in their order, if every statement ends on
-- a line behind that of the one before (the mark at the end of WORKING-STORAGE on one line, with a
-- line between), the last one before the last line, and no line has the marks of included files.
pub ppoutput-every :
    (ts : List Bytes) (inbuff : Bytes) (l : Placed) (ls : List Placed)
    → All IsUnmarked ts
    → IsReady 0 l
    → AreFollowing (length ts) l ls
    → generated_of (ppoutput ts 0 inbuff (l, ls)) ≡ l ∷ ls
ppoutput-every ts inbuff l ls u r f =
    (comes ts u).0 0 inbuff l ls r (subst (λ i. AreFollowing i l ls) (omega arith) f)
