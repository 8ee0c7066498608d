-- ===== src/GrpcLoader/Dial/Address.antt =====
-- dialAddr takes a location apart.
use tools_jvm_autodeps.Base.{
  ◌≡◌, refl, sym, ap, ◌∙◌, inl, inr, false, ◌++◌, Bool-cases, drop, Text, nat_eq, text_eq,
}
use tools_jvm_autodeps.Strings.{codes, has_prefix}
use tools_jvm_autodeps.Strings.Laws.{has_prefix-split}
use tools_jvm_autodeps.GrpcLoader.Dial.{Kind, uds, localhost, unknown, dial_addr}

-- What an address, a parameter for the server and a kind are for a location.
abbrev pub IsAddress : Text → Text → Text → Kind → Type 0
IsAddress location addr bind uds = (bind ≡ location) × (location ≡ codes "unix://" ++ addr)
IsAddress location addr bind localhost = (addr ≡ location) × (location ≡ codes "localhost:" ++ bind)
IsAddress location addr bind unknown =
    (addr ≡ location)
    × (bind ≡ location)
    × (has_prefix location (codes "unix://") ≡ false)
    × (has_prefix location (codes "localhost:") ≡ false)

-- dialAddr returns for a location of the form unix://<file> the file and the location, for one of
-- the form localhost:<port> the location and the port, and for every other the location twice.
pub dial_addr-IsAddress :
    (location : Text)
    → let (addr, bind, kind) = dial_addr location in IsAddress location addr bind kind
unfolding dial_addr
dial_addr-IsAddress location = elim (Bool-cases (has_prefix location (codes "unix://"))) [
  | inl socket ↦
      let (rest, e) = has_prefix-split location (codes "unix://") socket in
      rw socket (refl, e ∙ ap (λ s. codes "unix://" ++ s) (sym (ap (drop 7) e)))
  | inr other ↦ elim (Bool-cases (has_prefix location (codes "localhost:"))) [
    | inl port ↦
        let (rest, e) = has_prefix-split location (codes "localhost:") port in
        rw (other, port) (refl, e ∙ ap (λ s. codes "localhost:" ++ s) (sym (ap (drop 10) e)))
    | inr remote ↦ rw (other, remote) (refl, refl, other, remote)
  ]
]
