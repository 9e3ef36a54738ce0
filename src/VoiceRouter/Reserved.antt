-- ===== src/VoiceRouter/Reserved.antt =====
-- The local addresses: as many as permitted, one for each server, and never given to another one.
use voxhf.Dict.Laws.{count-insert_new, count-insert-le, lookup-insert, length-insert}
use voxhf.VoiceRouter.Endpoint.{
  find_route, Outcome, new_route, address_of, supported_host, max_servers, has_address, open_route,
  get_endpoint,
}
use voxhf.VoiceRouter.{Route, Router}
use voxhf.Dict.{insert, lookup, count_values, Dict}
use voxhf.Prelude.{
  true, not, if◌then◌else◌, Bool, subst, text_eq_iff, text_eq, arith, Option-cases, inr, inl, false,
  ◌≤◌, leb, length, Bool-cases, ℕ, List, Text, none, some, ◌≡◌,
}

count_with_new :
    (fresh : Text) (host a : Text) (m : Dict Route)
    → count_values (has_address a) m ≤ 1
    → leb 1 (count_values (has_address fresh) m) ≡ false
    → count_values (has_address a) (insert host (new_route fresh) m) ≤ 1
count_with_new fresh host a m few none_yet = elim (Bool-cases (text_eq fresh a)) [
  | inl same ↦
      let gone : count_values (has_address a) m ≤ 0 =
        subst (λ x. count_values (has_address x) m ≤ 0) ((text_eq_iff fresh a).0 same)
          (ground arith) in
      omega (arith, gone, count-insert-le (has_address a) host (new_route fresh) m)
  | inr other ↦ omega (arith, few, count-insert_new (has_address a) host (new_route fresh) m other)
]

-- Either way of a test.
either_way {ℓ κ} :
    {A : Type ℓ} (P : A → Type κ) (test : Bool) (x y : A) → P x → P y → P (if test then x else y)
either_way P true x y p q = p
either_way P false x y p q = q

module _ (sha256 : Text → List ℕ) {Target : Type 0} where
  pub record Reserved (r : Router Target) : Type 0 where
    pub few : length r.routes ≤ max_servers
    pub distinct : (address : Text) → count_values (has_address address) r.routes ≤ 1

  open_route-Reserved :
      (host : Text) (r : Router Target) → Reserved r → Reserved (open_route sha256 host r).0
  unfolding open_route
  open_route-Reserved host r v = elim (Bool-cases (leb max_servers (length r.routes))) [
    | inl full ↦ rw full v
    | inr room ↦
        let fresh = address_of sha256 host in
        elim (Bool-cases (leb 1 (count_values (has_address fresh) r.routes))) [
          | inl clash ↦ rw (room, clash) v
          | inr unused ↦
              rw (room, unused)
                (record {
                  few = ground (arith, length-insert host (new_route fresh) r.routes);
                  distinct = λ a. count_with_new fresh host a r.routes (v.distinct a) unused;
                })
        ]
  ]

  open_route_keeps :
      (host other : Text) (r : Router Target) {route : Route}
      → lookup host r.routes ≡ none
      → lookup other r.routes ≡ some route
      → lookup other (open_route sha256 host r).0.routes ≡ some route
  unfolding open_route
  open_route_keeps host other r new held = elim (Bool-cases (leb max_servers (length r.routes))) [
    | inl full ↦ rw full held
    | inr room ↦
        let fresh = address_of sha256 host in
        elim (Bool-cases (leb 1 (count_values (has_address fresh) r.routes))) [
          | inl clash ↦ rw (room, clash) held
          | inr unused ↦
              rw (room, unused)
                (ground (
                  arith,
                  text_eq_iff host other,
                  lookup-insert host other (new_route fresh) r.routes,
                ))
        ]
  ]

  find_route-Reserved :
      (host other : Text) (r : Router Target) {route : Route}
      → Reserved r
      → lookup other r.routes ≡ some route
      → Reserved (find_route sha256 host r (lookup host r.routes)).0
        × (lookup other (find_route sha256 host r (lookup host r.routes)).0.routes ≡ some route)
  find_route-Reserved host other r v held = elim (Option-cases (lookup host r.routes)) [
    | inr (known, there) ↦ rw there (v, held)
    | inl new ↦ rw new (open_route-Reserved host r v, open_route_keeps host other r new held)
  ]

  -- A request for an endpoint keeps at most 32 routes, no two of which share a local address, and
  -- leaves every route that was there with its address and its state.
  pub get_endpoint-Reserved :
      (host other : Text) (r : Router Target) {route : Route}
      → Reserved r
      → lookup other r.routes ≡ some route
      → Reserved (get_endpoint sha256 host r).0
        × (lookup other (get_endpoint sha256 host r).0.routes ≡ some route)
  unfolding get_endpoint
  get_endpoint-Reserved host other r {route} v held =
      let Kept : Router Target × Outcome → Type 0 =
        λ out. Reserved out.0 × (lookup other out.0.routes ≡ some route) in
      either_way Kept (not (supported_host host)) _ _ (v, held)
        (either_way Kept r.closed _ _ (v, held) (find_route-Reserved host other r v held))
