-- ===== src/IpNet/Parsing.antt =====
-- `ParseIPNets`.
use gardener_extension_priva.Base.{
  String, ◌≡◌, inl, inr, refl, Bool, false, ◌||◌, List, [], ◌∷◌, Option, none, some, arith, ◌==◌,
  any_of,
}
use gardener_extension_priva.Fault.{Error, Result, ok, err, Result-cases}
use gardener_extension_priva.Text.{trim_space}
use gardener_extension_priva.IpNet.{
  Net, IpNet, lookup, store, contains, parse_ip_nets_onto, parse_ip_nets,
}
use gardener_extension_priva.IpNet.Sets.{NodupKeys, lookup-store, store-NodupKeys}

module _ (net : Net) where
  open net use {IpNetwork, string, parse_cidr}

  -- the text of the network that a specification stands for
  abbrev pub names : String → String → Bool
  names k spec = elim (parse_cidr (trim_space spec)) [ ok n ↦ string n == k | err e ↦ false ]

  -- The first error among the specifications, in order.
  abbrev pub first_error : List String → Option Error
  first_error [] = none
  first_error (spec ∷ specs) =
      let later = first_error specs in
      elim (parse_cidr (trim_space spec)) [ ok n ↦ later | err e ↦ some e ]

  -- What a parse is to give: the first error, or a set with every key once that holds exactly the
  -- texts of the specified networks, beside what it held before.
  abbrev pub Parsed : IpNet net → List String → Option Error → Result (IpNet net) → Type 0
  Parsed before specs (some e) r = r ≡ err e
  Parsed before specs none r =
      (s : IpNet net) × (r ≡ ok s)
      × (NodupKeys before → NodupKeys s)
      × ((k : String) → contains s k ≡ (contains before k || any_of (names k) specs))

  names_ok :
      (k spec : String) (n : IpNetwork)
      → parse_cidr (trim_space spec) ≡ ok n
      → names k spec ≡ (string n == k)
  names_ok k spec n p = rw (p, names)

  -- one parsed specification more in front
  Parsed-cons :
      (before : IpNet net) (spec : String) (n : IpNetwork) (specs : List String) (o : Option Error)
      (r : Result (IpNet net))
      → parse_cidr (trim_space spec) ≡ ok n
      → Parsed (store (string n) n before) specs o r
      → Parsed before (spec ∷ specs) o r
  Parsed-cons before spec n specs (some e) r p h = h
  Parsed-cons before spec n specs none r p (s, e, keeps, members) = (
    s,
    e,
    λ d. keeps (store-NodupKeys (string n) n before d),
    λ k. ground (arith, names_ok k spec n p, members k, lookup-store (string n) k n before),
  )

  parse_ip_nets_onto-Parsed :
      (before : IpNet net) (specs : List String)
      → Parsed before specs (first_error specs) (parse_ip_nets_onto net before specs)
  unfolding parse_ip_nets_onto
  parse_ip_nets_onto-Parsed before [] = (before, refl, λ n. n, λ k. ground arith)
  parse_ip_nets_onto-Parsed before (spec ∷ specs) =
      elim (Result-cases (parse_cidr (trim_space spec))) [
        | inl (n, p) ↦
            rw (p, first_error, parse_ip_nets_onto)
              (Parsed-cons before spec n specs _ _ p
                (parse_ip_nets_onto-Parsed (store (string n) n before) specs))
        | inr (e, p) ↦ rw (p, first_error, parse_ip_nets_onto) refl
      ]

  -- What `ParseIPNets` is to give, by the first error among its specifications.
  abbrev pub IsParsed : List String → Option Error → Result (IpNet net) → Type 0
  IsParsed specs (some e) r = r ≡ err e
  IsParsed specs none r =
      (s : IpNet net) × (r ≡ ok s)
      × NodupKeys s
      × ((k : String) → contains s k ≡ any_of (names k) specs)

  Parsed-IsParsed :
      (specs : List String) (o : Option Error) (r : Result (IpNet net))
      → Parsed [] specs o r
      → IsParsed specs o r
  unfolding lookup
  Parsed-IsParsed specs (some e) r p = p
  Parsed-IsParsed specs none r (s, e, nodup, members) = (s, e, nodup tt, members)

  -- `ParseIPNets` fails with the first error among its specifications, each trimmed; without an error
  -- it gives a set, every key once, of exactly the texts of the specified networks.
  pub parse_ip_nets_lem :
      (specs : List String) → IsParsed specs (first_error specs) (parse_ip_nets net specs)
  unfolding parse_ip_nets
  parse_ip_nets_lem specs = Parsed-IsParsed specs _ _ (parse_ip_nets_onto-Parsed [] specs)
