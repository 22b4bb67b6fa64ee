-- ===== src/Buffer/Lru/Validity.antt =====
-- The list and the map of lru_replacer.cpp agree, whatever is called.
use franco_db.Prelude.{
  ℕ, ◌≤◌, ◌≡◌, refl, true, false, List, [], ◌∷◌, arith, length, elem, remove, distinct,
  remove_absent, length-remove-le, remove-distinct, snoc-distinct, elem-remove, elem-remove_self,
  elem-append, length-append,
}
use franco_db.Buffer.Lru.{Lru, erase_node, init, victim, pin, unpin}

pub record IsValid (s : Lru) : Type 0 where
  pub apart : distinct s.lru_list ≡ true
  pub agree : (f : ℕ) → elem f s.lru_map ≡ elem f s.lru_list
  pub fits : length s.lru_list ≤ s.capacity

-- In a list without repeats the erased node was the only one with its frame.
pub erase_node-remove : (f : ℕ) (xs : List ℕ) → distinct xs ≡ true → erase_node f xs ≡ remove f xs
unfolding erase_node remove distinct
erase_node-remove f [] h = refl
erase_node-remove f (x ∷ xs) h = ground (arith, erase_node-remove f xs, remove_absent f xs)

pub init-IsValid : (n : ℕ) → IsValid (init n)
unfolding init distinct elem
init-IsValid n = record { apart = refl; agree = λ f. refl; fits = omega arith }

-- What `pin` leaves, whether or not the frame was there.
pub pin-list : (s : Lru) (f : ℕ) → IsValid s → (pin s f).lru_list ≡ remove f s.lru_list
unfolding pin
pin-list s f v =
    ground (arith, v.agree f, erase_node-remove f s.lru_list v.apart, remove_absent f s.lru_list)

pub pin-capacity : (s : Lru) (f : ℕ) → (pin s f).capacity ≡ s.capacity
unfolding pin
pin-capacity s f = ground arith

pin-agree :
    (s : Lru) (f : ℕ) → IsValid s → (g : ℕ) → elem g (pin s f).lru_map ≡ elem g (pin s f).lru_list
unfolding pin
pin-agree s f v g = ground (
  arith,
  v.agree f,
  v.agree g,
  erase_node-remove f s.lru_list v.apart,
  elem-remove f g s.lru_list,
  elem-remove f g s.lru_map,
)

pub pin-IsValid : (s : Lru) (f : ℕ) → IsValid s → IsValid (pin s f)
pin-IsValid s f v = record {
  apart = ground (arith, pin-list s f v, remove-distinct f s.lru_list v.apart);
  agree = pin-agree s f v;
  fits = ground (arith, pin-list s f v, pin-capacity s f, v.fits, length-remove-le f s.lru_list);
}

victim-agree :
    (s : Lru) (f : ℕ) (rest : List ℕ)
    → s.lru_list ≡ f ∷ rest
    → IsValid s
    → (g : ℕ) → elem g (remove f s.lru_map) ≡ elem g rest
unfolding distinct elem
victim-agree s f rest e v g = ground (arith, v.apart, v.agree g, elem-remove f g s.lru_map)

pub victim-IsValid : (s : Lru) → IsValid s → IsValid (victim s).1
unfolding victim
victim-IsValid s v = go s.lru_list refl
  where
    go : (l : List ℕ) → s.lru_list ≡ l → IsValid (victim s).1
    go [] e = rw (e, victim) v
    go (f ∷ rest) e =
        rw (e, victim)
          (record {
            apart = unfold distinct in ground (arith, v.apart);
            agree = victim-agree s f rest e v;
            fits = ground (arith, v.fits);
          })

unpin-agree :
    (s : Lru) (f : ℕ)
    → IsValid s
    → (g : ℕ) → elem g (unpin s f).lru_map ≡ elem g (unpin s f).lru_list
unfolding unpin elem
unpin-agree s f v g =
    ground (arith, (pin-IsValid s f v).agree g, elem-append g (pin s f).lru_list (f ∷ []))

pub unpin-IsValid : (s : Lru) (f : ℕ) → IsValid s → IsValid (unpin s f)
unfolding unpin
unpin-IsValid s f v = record {
  apart = ground (
    arith,
    w.apart,
    pin-list s f v,
    elem-remove_self f s.lru_list,
    snoc-distinct f (pin s f).lru_list,
  );
  agree = unpin-agree s f v;
  fits = ground (arith, w.fits, length-append (pin s f).lru_list (f ∷ []));
}
  where
    w : IsValid (pin s f)
    w = pin-IsValid s f v

pub pin_absent : (s : Lru) (f : ℕ) → IsValid s → elem f s.lru_list ≡ false → pin s f ≡ s
unfolding pin
pin_absent s f v h = ground (arith, v.agree f)
