-- ===== src/Preload/Interfaces.antt =====
-- The loop of `query_interfaces` in libktsn.c that adds the interfaces. What the C library's functions
-- return for an entry stands in the entry; `unset` is what `malloc` returns.
use mathlib.Core.Path.{subst}
use kuberne_tsn.Common.{
  ℕ, ◌≡◌, refl, arith, Bool, true, false, Bool-cases, Option-cases, ℕ_discrete, Option, none, some,
  List, [], ◌∷◌, inl, inr, ◌==◌, if◌then◌else◌,
}
use kuberne_tsn.Common.Run.{Run, done, aborted}
use kuberne_tsn.Common.Text.{strncpy}
use kuberne_tsn.Preload.{InetAddr, KtInterface, interface_find, interface_exists}

-- an entry of `getifaddrs`: the address and the netmask if it is one of AF_INET, whether `getnameinfo`
-- knows it, and its number from `if_nametoindex`
pub record IfAddr : Type 0 where
  pub name : List ℕ
  pub inet : Option (InetAddr × ℕ)
  pub named : Bool
  pub ifindex : ℕ

-- `IFNAMSIZ`
abbrev pub ifnamsiz : ℕ
ifnamsiz = 16

-- The loop; `aborted` stands for `exit`.
unfoldable pub add_interfaces :
    KtInterface → List IfAddr → List KtInterface → Run (List KtInterface)
add_interfaces unset [] interfaces = done interfaces
add_interfaces unset (ifa ∷ rest) interfaces =
    let skip = add_interfaces unset rest interfaces in
    elim ifa.inet as (λ _. Run (List KtInterface)) [
      | none ↦ skip
      | some (addr, netmask) ↦
          let interface : KtInterface = record {
            ifindex = ifa.ifindex;
            name = strncpy unset.name ifa.name ifnamsiz;
            addr = addr;
            netmask = netmask;
            mac = unset.mac;
          } in
          let add = add_interfaces unset rest (interface ∷ interfaces) in
          if ifa.named
          then (if interface_exists interfaces ifa.ifindex then skip else add)
          else aborted
    ]

-- no two interfaces have the same number
abbrev pub IsValid : List KtInterface → Type 0
IsValid [] = Unit
IsValid (iface ∷ interfaces) = (interface_find interfaces iface.ifindex ≡ none) × IsValid interfaces

-- `kt_interface_exists` tells whether `kt_interface_find` finds one.
interface_exists-find :
    (interfaces : List KtInterface) (i : ℕ)
    → interface_exists interfaces i ≡ false
    → interface_find interfaces i ≡ none
unfolding interface_exists interface_find
interface_exists-find [] i e = refl
interface_exists-find (iface ∷ interfaces) i e = ground (arith, interface_exists-find interfaces i)

-- every entry has a name
abbrev pub AllNamed : List IfAddr → Type 0
AllNamed [] = Unit
AllNamed (ifa ∷ rest) = (ifa.named ≡ true) × AllNamed rest

-- The interface that the entries give a number: the first of AF_INET with it counts.
abbrev pub entry_for : KtInterface → List IfAddr → ℕ → Option KtInterface
entry_for unset [] i = none
entry_for unset (ifa ∷ rest) i = elim ifa.inet as (λ _. Option KtInterface) [
  | none ↦ entry_for unset rest i
  | some (addr, netmask) ↦
      if ifa.ifindex == i
      then some (record {
        ifindex = ifa.ifindex;
        name = strncpy unset.name ifa.name ifnamsiz;
        addr = addr;
        netmask = netmask;
        mac = unset.mac;
      })
      else entry_for unset rest i
]

-- the first of two answers
abbrev pub or_else : Option KtInterface → Option KtInterface → Option KtInterface
or_else none b = b
or_else (some a) b = some a

-- No two interfaces have the same number, and each number finds the interface that was there, or else the
-- one that the entries give it, and nothing more.
pub record Extended (unset : KtInterface) (entries : List IfAddr)
    (interfaces interfaces' : List KtInterface) : Type 0 where
  pub valid : IsValid interfaces'
  pub finds :
      (i : ℕ)
      → interface_find interfaces' i
        ≡ or_else (interface_find interfaces i) (entry_for unset entries i)

-- An interface that exists is found.
exists-finds :
    (interfaces : List KtInterface) (i : ℕ)
    → interface_exists interfaces i ≡ true
    → (iface : KtInterface) × (interface_find interfaces i ≡ some iface)
unfolding interface_exists interface_find
exists-finds [] i e = absurd (ground (arith, e))
exists-finds (iface ∷ interfaces) i e = elim (Bool-cases (iface.ifindex == i)) [
  | inl here ↦ (iface, rw here refl)
  | inr there ↦ rw (there, interface_find) (exists-finds interfaces i (rw there at e))
]

-- The loop over entries that all have a name, from a list in which no number is there twice, ends. No two
-- interfaces have the same number then; a number that was there keeps its interface, with all of its fields;
-- another one has the interface of the first entry of AF_INET with it, with the name, the address and the
-- netmask of the entry, and none without such an entry.
pub add_interfaces-Extended :
    (unset : KtInterface) (entries : List IfAddr) (interfaces : List KtInterface)
    → AllNamed entries
    → IsValid interfaces
    → (interfaces' : List KtInterface) × (add_interfaces unset entries interfaces
        ≡ done interfaces')
      × Extended unset entries interfaces interfaces'
unfolding add_interfaces interface_find
add_interfaces-Extended unset [] interfaces named v =
    (interfaces, refl, record { valid = v; finds = λ i. ground arith })
add_interfaces-Extended unset (ifa ∷ rest) interfaces named v =
    let (skipped, ran, extended) = add_interfaces-Extended unset rest interfaces named.1 v in
    elim (Option-cases ifa.inet) [
      | inl other ↦ (
        skipped,
        rw (other, add_interfaces) ran,
        record { valid = extended.valid; finds = λ i. rw other (extended.finds i) },
      )
      | inr ((addr, netmask), inet) ↦ elim (Bool-cases (interface_exists interfaces ifa.ifindex)) [
        | inl known ↦
            let (old, found) = exists-finds interfaces ifa.ifindex known in
            (
              skipped,
              rw (inet, named.0, known, add_interfaces) ran,
              record {
                valid = extended.valid;
                finds = λ i. elim (ℕ_discrete ifa.ifindex i) [
                  | yes e ↦
                      subst
                        (λ j.
                          interface_find skipped j
                          ≡ or_else (interface_find interfaces j) (entry_for unset (ifa ∷ rest) j))
                        e (rw found (rw found at (extended.finds ifa.ifindex)))
                  | no ne ↦
                      let off : (ifa.ifindex == i) ≡ false = ground arith in
                      rw (inet, off) (extended.finds i)
                ];
              },
            )
        | inr new ↦
            let interface : KtInterface = record {
              ifindex = ifa.ifindex;
              name = strncpy unset.name ifa.name ifnamsiz;
              addr = addr;
              netmask = netmask;
              mac = unset.mac;
            } in
            let missing = interface_exists-find interfaces ifa.ifindex new in
            let (added, ran', extended') =
              add_interfaces-Extended unset rest (interface ∷ interfaces) named.1 (missing, v) in
            (
              added,
              rw (inet, named.0, new, add_interfaces) ran',
              record {
                valid = extended'.valid;
                finds = λ i. elim (ℕ_discrete ifa.ifindex i) [
                  | yes e ↦ ground (arith, inet, extended'.finds i, missing)
                  | no ne ↦ ground (arith, inet, extended'.finds i)
                ];
              },
            )
      ]
    ]
