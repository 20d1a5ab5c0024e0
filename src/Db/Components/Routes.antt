-- ===== src/Db/Components/Routes.antt =====
-- The members of a route are read back in the order of their addresses (db/components.py).
use py_legacy.Common.{
  ℕ, ◌-◌, ◌≤◌, ◌<◌, ◌≡◌, refl, sym, ap, ◌∙◌, false, List, [], ◌∷◌, ◌++◌, append_assoc, append-nil,
  arith, leb, length, All, ok, ◌>>=◌,
}
use mathlib.Core.Path.{subst}
use py_legacy.Db.Components.{
  RouteComponent, rev_onto, pad_to, insert_route, sort_routes, route_pair, routes_from_bytes,
  route_bytes, routes_to_bytes,
}
use py_legacy.Db.Components.RoundTrip.{pairs, IsPair, made, read_pairs-pairs, length-pairs}
use py_legacy.Db.Components.Written.{byte_fits, length-pad_to}

-- The addresses go up.
abbrev pub IsAscending : List RouteComponent → Type 0
IsAscending [] = Unit
IsAscending (c ∷ cs) = All (λ d. c.tmcc_id < d.tmcc_id) cs × IsAscending cs

abbrev pub IsRouteMember : RouteComponent → Type 0
IsRouteMember c = (c.flags < 0xFF) × (c.tmcc_id < 0xFF)

insert_route-last :
    (c : RouteComponent) (cs rest : List RouteComponent)
    → IsAscending (cs ++ c ∷ rest)
    → insert_route c cs ≡ cs ++ c ∷ []
unfolding insert_route
insert_route-last c [] rest h = refl
insert_route-last c (d ∷ cs) rest (p, h) =
    let below : leb c.tmcc_id d.tmcc_id ≡ false = ground (arith, middle c d cs rest p) in
    rw below (ap (λ xs. d ∷ xs) (insert_route-last c cs rest h))
  where
    middle :
        (c d : RouteComponent) (cs rest : List RouteComponent)
        → All (λ e. d.tmcc_id < e.tmcc_id) (cs ++ c ∷ rest)
        → d.tmcc_id < c.tmcc_id
    middle c d [] rest (p, _) = p
    middle c d (e ∷ cs) rest (_, h) = middle c d cs rest h

-- Sorting what was put in front, one by one, gives the ascending list back.
sort_routes-rev_onto :
    (cs acc sorted : List RouteComponent)
    → sort_routes acc ≡ sorted
    → IsAscending (sorted ++ cs)
    → sort_routes (rev_onto cs acc) ≡ sorted ++ cs
unfolding sort_routes rev_onto
sort_routes-rev_onto [] acc sorted e h = e ∙ sym (append-nil sorted)
sort_routes-rev_onto (c ∷ cs) acc sorted e h =
    let grown : sort_routes (c ∷ acc) ≡ sorted ++ c ∷ [] =
      ap (insert_route c) e ∙ insert_route-last c sorted cs h in
    sort_routes-rev_onto cs (c ∷ acc) (sorted ++ c ∷ []) grown
      (subst IsAscending (sym (append_assoc sorted (c ∷ []) cs)) h)
    ∙ append_assoc sorted (c ∷ []) cs

abbrev route_pairs : List RouteComponent → List (ℕ × ℕ)
route_pairs [] = []
route_pairs (c ∷ cs) = (c.flags, c.tmcc_id) ∷ route_pairs cs

route_bytes-pairs :
    (cs : List RouteComponent)
    → All IsRouteMember cs
    → (route_bytes cs ≡ ok (pairs (route_pairs cs)))
      × (made route_pair (route_pairs cs) ≡ cs)
      × All IsPair (route_pairs cs)
      × (length (route_pairs cs) ≡ length cs)
unfolding route_bytes
route_bytes-pairs [] h = (refl, refl, tt, refl)
route_bytes-pairs (c ∷ cs) ((f, t), h) =
    let (e, m, a, l) = route_bytes-pairs cs h in
    (
      rw (byte_fits c.flags (omega arith), byte_fits c.tmcc_id (omega arith), e) refl,
      ap (λ xs. c ∷ xs) m,
      ((f, t), a),
      omega (arith, l),
    )

-- The members of a route with ascending addresses, 16 at most, are written to the 32 bytes of the field
-- and read back.
pub routes_from_bytes-to_bytes :
    (cs : List RouteComponent)
    → All IsRouteMember cs
    → IsAscending cs
    → length cs ≤ 16
    → (bs : List ℕ) × (routes_to_bytes cs ≡ ok bs)
      × (length bs ≡ 32)
      × (routes_from_bytes bs ≡ ok cs)
unfolding routes_to_bytes routes_from_bytes
routes_from_bytes-to_bytes cs h up few =
    let (e, m, a, l) = route_bytes-pairs cs h in
    let ps : List (ℕ × ℕ) = route_pairs cs in
    let read = read_pairs-pairs route_pair ps 16 (32 - length (pairs ps)) [] a (omega (arith, l)) in
    (
      pad_to 32 (pairs ps),
      rw e refl,
      length-pad_to 32 (pairs ps) (omega (arith, length-pairs ps, l)),
      unfold pad_to in
          ap (λ r. r >>= λ xs. ok (sort_routes xs)) read
          ∙ ap ok (
              ap (λ xs. sort_routes (rev_onto xs [])) m
              ∙ sort_routes-rev_onto cs [] [] (unfold sort_routes in refl) up),
    )
