-- ===== src/Vhttp/Groups.antt =====
-- The groups of virtual hosts of vhttp/vhost.go, and the host names of hosts/domains.go by which a
-- request finds its group. A virtual host is an opaque value of type `V` with its host names.
use pmesh.Base.{
  ◌≡◌, refl, sym, ap, ◌∙◌, Bool, false, ◌||◌, List, [], ◌∷◌, ◌++◌, arith, if◌then◌else◌, Bool-cases,
  inl, inr, append_assoc, append-nil,
}
use pmesh.Base.Text.{Text, text_eq, text_eq_iff}

text_eq_sym : (s t : Text) → text_eq s t ≡ text_eq t s
text_eq_sym s t = ground (arith, text_eq_iff s t, text_eq_iff t s)

-- A group is its host name and its hosts. `groups.ordered` is the list of them; the map `unique`
-- holds the same groups by name.
module _ {ℓ} {V : Type ℓ} where
  -- Looks `hostname` up and adds the host to its group, or appends a new group.
  unfoldable pub add_host : V → List (Text × List V) → Text → List (Text × List V)
  add_host vh [] hostname = (hostname, vh ∷ []) ∷ []
  add_host vh ((name, hosts) ∷ gs) hostname =
      if text_eq name hostname
      then (name, hosts ++ vh ∷ []) ∷ gs
      else (name, hosts) ∷ add_host vh gs hostname

  -- The inner loop of `createGroups`.
  unfoldable pub add_hosts : V → List Text → List (Text × List V) → List (Text × List V)
  add_hosts vh [] gs = gs
  add_hosts vh (hostname ∷ names) gs = add_hosts vh names (add_host vh gs hostname)

  unfoldable pub create_from : List (V × List Text) → List (Text × List V) → List (Text × List V)
  create_from [] gs = gs
  create_from ((vh, names) ∷ vhosts) gs = create_from vhosts (add_hosts vh names gs)

  -- `createGroups`
  unfoldable pub create_groups : List (V × List Text) → List (Text × List V)
  create_groups vhosts = create_from vhosts []

  unfoldable pub lookup_group : Text → List (Text × List V) → List V
  lookup_group hostname [] = []
  lookup_group hostname ((name, hosts) ∷ gs) =
      if text_eq name hostname then hosts else lookup_group hostname gs

  -- The virtual host, once for each time that it lists the name.
  pub listed : V → List Text → Text → List V
  listed vh [] hostname = []
  listed vh (name ∷ names) hostname =
      let rest = listed vh names hostname in if text_eq name hostname then vh ∷ rest else rest

  pub all_listed : List (V × List Text) → Text → List V
  all_listed [] hostname = []
  all_listed ((vh, names) ∷ vhosts) hostname =
      listed vh names hostname ++ all_listed vhosts hostname

  lookup-add_host :
      (vh : V) (gs : List (Text × List V)) (name hostname : Text)
      → lookup_group hostname (add_host vh gs name) ≡ (
          if text_eq name hostname
          then lookup_group hostname gs ++ vh ∷ []
          else lookup_group hostname gs)
  unfolding lookup_group add_host
  lookup-add_host vh [] name hostname = ground arith
  lookup-add_host vh ((n, hosts) ∷ gs) name hostname = ground (
    arith,
    text_eq_iff n name,
    text_eq_iff n hostname,
    text_eq_iff name hostname,
    lookup-add_host vh gs name hostname,
  )

  lookup-add_hosts :
      (vh : V) (names : List Text) (gs : List (Text × List V)) (hostname : Text)
      → lookup_group hostname (add_hosts vh names gs)
        ≡ lookup_group hostname gs ++ listed vh names hostname
  unfolding add_hosts listed
  lookup-add_hosts vh [] gs hostname = sym (append-nil (lookup_group hostname gs))
  lookup-add_hosts vh (name ∷ names) gs hostname = elim (Bool-cases (text_eq name hostname)) [
    | inl hit ↦
        rw
          (
            lookup-add_hosts vh names (add_host vh gs name) hostname,
            lookup-add_host vh gs name hostname,
            hit,
          )
          (append_assoc (lookup_group hostname gs) (vh ∷ []) (listed vh names hostname))
    | inr miss ↦ rw (
      lookup-add_hosts vh names (add_host vh gs name) hostname,
      lookup-add_host vh gs name hostname,
      miss,
    )
  ]

  lookup-create_from :
      (vhosts : List (V × List Text)) (gs : List (Text × List V)) (hostname : Text)
      → lookup_group hostname (create_from vhosts gs)
        ≡ lookup_group hostname gs ++ all_listed vhosts hostname
  unfolding create_from all_listed
  lookup-create_from [] gs hostname = sym (append-nil (lookup_group hostname gs))
  lookup-create_from ((vh, names) ∷ vhosts) gs hostname =
      lookup-create_from vhosts (add_hosts vh names gs) hostname
      ∙ ap (λ l. l ++ all_listed vhosts hostname) (lookup-add_hosts vh names gs hostname)
      ∙ append_assoc (lookup_group hostname gs) (listed vh names hostname)
          (all_listed vhosts hostname)

  -- Whether a group of the name is there.
  abbrev named : Text → List (Text × List V) → Bool
  named hostname [] = false
  named hostname ((name, hosts) ∷ gs) = text_eq name hostname || named hostname gs

  -- No two groups share a name.
  abbrev pub DistinctNames : List (Text × List V) → Type 0
  DistinctNames [] = Unit
  DistinctNames ((name, hosts) ∷ gs) = (named name gs ≡ false) × DistinctNames gs

  named-add_host :
      (vh : V) (gs : List (Text × List V)) (name hostname : Text)
      → named hostname (add_host vh gs name) ≡ (text_eq name hostname || named hostname gs)
  unfolding add_host
  named-add_host vh [] name hostname = refl
  named-add_host vh ((n, hosts) ∷ gs) name hostname = ground (
    arith,
    text_eq_iff n name,
    text_eq_iff n hostname,
    text_eq_iff name hostname,
    named-add_host vh gs name hostname,
  )

  add_host-DistinctNames :
      (vh : V) (gs : List (Text × List V)) (name : Text)
      → DistinctNames gs
      → DistinctNames (add_host vh gs name)
  unfolding add_host
  add_host-DistinctNames vh [] name d = (refl, tt)
  add_host-DistinctNames vh ((n, hosts) ∷ gs) name d = elim (Bool-cases (text_eq n name)) [
    | inl hit ↦ rw hit d
    | inr miss ↦ rw miss (
      named-add_host vh gs name n ∙ rw (text_eq_sym name n, miss) d.0,
      add_host-DistinctNames vh gs name d.1,
    )
  ]

  add_hosts-DistinctNames :
      (vh : V) (names : List Text) (gs : List (Text × List V))
      → DistinctNames gs
      → DistinctNames (add_hosts vh names gs)
  unfolding add_hosts
  add_hosts-DistinctNames vh [] gs d = d
  add_hosts-DistinctNames vh (name ∷ names) gs d =
      add_hosts-DistinctNames vh names (add_host vh gs name) (add_host-DistinctNames vh gs name d)

  create_from-DistinctNames :
      (vhosts : List (V × List Text)) (gs : List (Text × List V))
      → DistinctNames gs
      → DistinctNames (create_from vhosts gs)
  unfolding create_from
  create_from-DistinctNames [] gs d = d
  create_from-DistinctNames ((vh, names) ∷ vhosts) gs d =
      create_from-DistinctNames vhosts (add_hosts vh names gs)
        (add_hosts-DistinctNames vh names gs d)

  -- No two groups share a host name, and the group of a name holds exactly the virtual hosts that list
  -- it, in the order of the configuration, once for each time that they list it.
  pub lookup-create_groups :
      (vhosts : List (V × List Text)) (hostname : Text)
      → DistinctNames (create_groups vhosts)
        × (lookup_group hostname (create_groups vhosts) ≡ all_listed vhosts hostname)
  unfolding create_groups lookup_group
  lookup-create_groups vhosts hostname =
      (create_from-DistinctNames vhosts [] tt, lookup-create_from vhosts [] hostname)
