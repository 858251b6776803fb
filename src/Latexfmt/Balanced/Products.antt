-- ===== src/Latexfmt/Balanced/Products.antt =====
-- The brackets in what the loop of `renderTimes` of latexfmt/latex.go collects.
use go_mathsearch.Base.{
  Bool, true, false, not, ◌&&◌, List, [], ◌∷◌, ◌++◌, ◌==◌, nat_eq, if◌then◌else◌, Bool-cases, refl,
  inl, inr, All,
}
use go_mathsearch.Base.Int.{pos, negsuc, is_negative}
use go_mathsearch.Base.Text.{Text, codes, text_eq}
use go_mathsearch.Latexfmt.Terms.{Doc, Docs, prec_times, prec_pow, is_rat, neg_rat, arg}
use go_mathsearch.Latexfmt.Products.{
  join_product, Product, peel, place, add_factor, add_factors, render_product, render_times,
}
use go_mathsearch.Latexfmt.Brackets.{
  bracket, scan, IsBalanced, IsBalanced-if, IsBalanced-append, AllBalanced,
}
use go_mathsearch.Latexfmt.Balanced.Terms.{
  IsShown, nil-IsBalanced, minus-IsBalanced, arg-IsBalanced, frac-IsBalanced,
}
use go_mathsearch.Latexfmt.Balanced.Powers.{join_product-IsBalanced, render_power-IsBalanced}

-- What the loop of `renderTimes` has collected.
record IsSound (p : Product) : Type 0 where
  nums : AllBalanced p.num
  dens : AllBalanced p.den

AllBalanced-concat :
    (ss : List Text) (s : Text) → AllBalanced ss → IsBalanced s → AllBalanced (ss ++ s ∷ [])
AllBalanced-concat [] s a h = (h, tt)
AllBalanced-concat (t ∷ ss) s a h = (a.0, AllBalanced-concat ss s a.1 h)

peel-IsShown : (negative : Bool) (d : Doc) → IsShown d → IsShown (peel negative d).1
unfolding peel
peel-IsShown negative (Doc.op o bound text prec (Docs.cons k Docs.nil)) h =
    elim (Bool-cases (o == codes "Minus")) [
      | inl minus ↦ rw minus (peel-IsShown (not negative) k h.3.0)
      | inr other ↦ rw other h
    ]
peel-IsShown negative (Doc.op o bound text prec Docs.nil) h = h
peel-IsShown negative (Doc.op o bound text prec (Docs.cons k (Docs.cons l ks))) h = h
peel-IsShown negative (Doc.const q) h = h
peel-IsShown negative (Doc.free name) h = h
peel-IsShown negative (Doc.sym name) h = h
peel-IsShown negative Doc.other h = h

above-IsSound :
    (p : Product) (d : Doc)
    → IsSound p
    → IsShown d
    → IsSound (record p { num = p.num ++ arg d prec_times ∷ [] })
above-IsSound p d s h = record {
  nums = AllBalanced-concat p.num (arg d prec_times) s.nums (arg-IsBalanced d prec_times h);
  dens = s.dens;
}

below-IsSound :
    (p : Product) (t : Text)
    → IsSound p
    → IsBalanced t
    → IsSound (record p { den = p.den ++ t ∷ [] })
below-IsSound p t s h = record { nums = s.nums; dens = AllBalanced-concat p.den t s.dens h }

IsSound-if : (b : Bool) (p q : Product) → IsSound p → IsSound q → IsSound (if b then p else q)
IsSound-if true p q h k = h
IsSound-if false p q h k = k

place-IsSound : (p : Product) (d : Doc) → IsSound p → IsShown d → IsSound (place p d)
unfolding place
place-IsSound p (Doc.op o bound text prec (Docs.cons base (Docs.cons (Doc.const q) Docs.nil))) s h =
    IsSound-if (o == codes "Power" && is_negative q.num) _ _
      (below-IsSound p _ s (
        IsBalanced-if (is_rat (neg_rat q) (pos 1) 1) (arg-IsBalanced base prec_pow h.3.0)
          (render_power-IsBalanced base (Doc.const (neg_rat q)) h.3.0 tt)))
      (above-IsSound p
        (Doc.op o bound text prec (Docs.cons base (Docs.cons (Doc.const q) Docs.nil))) s h)
place-IsSound p (Doc.op o bound text prec Docs.nil) s h =
    above-IsSound p (Doc.op o bound text prec Docs.nil) s h
place-IsSound p (Doc.op o bound text prec (Docs.cons a Docs.nil)) s h =
    above-IsSound p (Doc.op o bound text prec (Docs.cons a Docs.nil)) s h
place-IsSound p (Doc.op o bound text prec (Docs.cons a (Docs.cons (Doc.free x) Docs.nil))) s h =
    above-IsSound p (Doc.op o bound text prec (Docs.cons a (Docs.cons (Doc.free x) Docs.nil))) s h
place-IsSound p (Doc.op o bound text prec (Docs.cons a (Docs.cons (Doc.sym x) Docs.nil))) s h =
    above-IsSound p (Doc.op o bound text prec (Docs.cons a (Docs.cons (Doc.sym x) Docs.nil))) s h
place-IsSound p (Doc.op o bound text prec (Docs.cons a (Docs.cons Doc.other Docs.nil))) s h =
    above-IsSound p (Doc.op o bound text prec (Docs.cons a (Docs.cons Doc.other Docs.nil))) s h
place-IsSound p
      (Doc.op o bound text prec (Docs.cons a (Docs.cons (Doc.op o' b' t' p' ks) Docs.nil))) s h =
    above-IsSound p
      (Doc.op o bound text prec (Docs.cons a (Docs.cons (Doc.op o' b' t' p' ks) Docs.nil))) s h
place-IsSound p (Doc.op o bound text prec (Docs.cons a (Docs.cons (Doc.const q) (Docs.cons c ks))))
      s h =
    above-IsSound p
      (Doc.op o bound text prec (Docs.cons a (Docs.cons (Doc.const q) (Docs.cons c ks)))) s h
place-IsSound p (Doc.op o bound text prec (Docs.cons a (Docs.cons (Doc.free x) (Docs.cons c ks)))) s
      h =
    above-IsSound p
      (Doc.op o bound text prec (Docs.cons a (Docs.cons (Doc.free x) (Docs.cons c ks)))) s h
place-IsSound p (Doc.op o bound text prec (Docs.cons a (Docs.cons (Doc.sym x) (Docs.cons c ks)))) s
      h =
    above-IsSound p
      (Doc.op o bound text prec (Docs.cons a (Docs.cons (Doc.sym x) (Docs.cons c ks)))) s h
place-IsSound p (Doc.op o bound text prec (Docs.cons a (Docs.cons Doc.other (Docs.cons c ks)))) s
      h =
    above-IsSound p (Doc.op o bound text prec (Docs.cons a (Docs.cons Doc.other (Docs.cons c ks))))
      s h
place-IsSound p
      (Doc.op o bound text prec (Docs.cons a (Docs.cons (Doc.op o' b' t' p' ls) (Docs.cons c ks))))
      s h =
    above-IsSound p
      (Doc.op o bound text prec (Docs.cons a (Docs.cons (Doc.op o' b' t' p' ls) (Docs.cons c ks))))
      s h
place-IsSound p (Doc.const q) s h = above-IsSound p (Doc.const q) s h
place-IsSound p (Doc.free x) s h = above-IsSound p (Doc.free x) s h
place-IsSound p (Doc.sym x) s h = above-IsSound p (Doc.sym x) s h
place-IsSound p Doc.other s h = above-IsSound p Doc.other s h

add_factor-IsSound : (p : Product) (d : Doc) → IsSound p → IsShown d → IsSound (add_factor p d)
unfolding add_factor
add_factor-IsSound p (Doc.const q) s h =
    let turned : IsSound (record p { negative = not p.negative }) = record {
      nums = s.nums;
      dens = s.dens;
    } in
    IsSound-if (is_negative q.num) _ _
      (IsSound-if (is_rat q (negsuc 0) 1) _ _ turned
        (place-IsSound (record p { negative = not p.negative }) (Doc.const (neg_rat q)) turned tt))
      (place-IsSound p (Doc.const q) s h)
add_factor-IsSound p (Doc.free x) s h = place-IsSound p (Doc.free x) s h
add_factor-IsSound p (Doc.sym x) s h = place-IsSound p (Doc.sym x) s h
add_factor-IsSound p Doc.other s h = place-IsSound p Doc.other s h
add_factor-IsSound p (Doc.op o bound text prec ks) s h =
    place-IsSound p (Doc.op o bound text prec ks) s h

add_factors-IsSound :
    (p : Product) (ds : List Doc) → IsSound p → All IsShown ds → IsSound (add_factors p ds)
unfolding add_factors
add_factors-IsSound p [] s a = s
add_factors-IsSound p (d ∷ ds) s a =
    let peeled = peel p.negative d in
    add_factors-IsSound (add_factor (record p { negative = peeled.0 }) peeled.1) ds
      (add_factor-IsSound (record p { negative = peeled.0 }) peeled.1
        (record { nums = s.nums; dens = s.dens }) (peel-IsShown p.negative d a.0))
      a.1

over_den-IsBalanced :
    (shown : Text) (den : List Text)
    → IsBalanced shown
    → AllBalanced den
    → IsBalanced (elim den [
      | [] ↦ shown
      | d ∷ ds ↦ codes "\\frac{" ++ (shown ++ (codes "}{" ++ (join_product (d ∷ ds) ++ codes "}")))
    ])
over_den-IsBalanced shown [] h a = h
over_den-IsBalanced shown (d ∷ ds) h a =
    frac-IsBalanced shown (join_product (d ∷ ds)) h (join_product-IsBalanced (d ∷ ds) a)

one-IsBalanced : IsBalanced (codes "1")
unfolding scan bracket
one-IsBalanced = record { closed = refl }

render_product-IsBalanced : (p : Product) → IsSound p → IsBalanced (render_product p)
unfolding render_product
render_product-IsBalanced p s =
    IsBalanced-append (IsBalanced-if p.negative minus-IsBalanced nil-IsBalanced) (
      over_den-IsBalanced _ p.den
        (IsBalanced-if (join_product p.num == []) one-IsBalanced
          (join_product-IsBalanced p.num s.nums))
        s.dens)

pub render_times-IsBalanced : (ds : List Doc) → All IsShown ds → IsBalanced (render_times ds)
unfolding render_times
render_times-IsBalanced ds a = render_product-IsBalanced _ (
    add_factors-IsSound (record { negative = false; num = []; den = [] }) ds
      (record { nums = tt; dens = tt }) a)
