-- ===== src/Json/Laws.antt =====
-- Reading and writing the properties of an object, and its two views.
use voxhf.Prelude.{
  ◌≡◌, refl, ap, false, ◌||◌, List, [], ◌∷◌, arith, Text, text_eq, text_eq_iff, if◌then◌else◌,
}
use voxhf.Json.{Value, undefined, elems, of_list, Bindings, bindings, of_bindings, has, get, put}

pub elems-of_list : (vs : List Value) → elems (of_list vs) ≡ vs
elems-of_list [] = refl
elems-of_list (v ∷ vs) = ap (◌∷◌ v) (elems-of_list vs)

pub bindings-of_bindings : (b : Bindings) → bindings (of_bindings b) ≡ b
bindings-of_bindings [] = refl
bindings-of_bindings ((k, v) ∷ b) = ap (◌∷◌ (k, v)) (bindings-of_bindings b)

pub get-put :
    (k j : Text) (v : Value) (b : Bindings)
    → get j (put k v b) ≡ (if text_eq k j then v else get j b)
unfolding get put
get-put k j v [] = refl
get-put k j v ((i, w) ∷ b) =
    ground (arith, text_eq_iff k j, text_eq_iff i k, text_eq_iff i j, get-put k j v b)

pub has-put : (k j : Text) (v : Value) (b : Bindings) → has j (put k v b) ≡ (text_eq k j || has j b)
unfolding has put
has-put k j v [] = refl
has-put k j v ((i, w) ∷ b) =
    ground (arith, text_eq_iff k j, text_eq_iff i k, text_eq_iff i j, has-put k j v b)

pub get_of_not_has : (k : Text) (b : Bindings) → has k b ≡ false → get k b ≡ undefined
unfolding has get
get_of_not_has k [] h = refl
get_of_not_has k ((j, v) ∷ b) h = ground (arith, get_of_not_has k b)
