-- ===== src/Preload/Macs.antt =====
-- The interfaces and their MAC addresses, as the start of libktsn.c leaves them.
use mathlib.Core.Path.{subst}
use kuberne_tsn.Common.{
  ℕ, ◌≡◌, refl, sym, arith, Bool-cases, ◌⊎◌, inl, inr, none, some, Option-cases, List, [], ◌∷◌,
  take, true, false,
}
use kuberne_tsn.Common.Int.{ℤ, pos, negsuc, ltb_ℤ, eqb_ℤ}
use kuberne_tsn.Common.Run.{Run, done, aborted, done-inj}
use kuberne_tsn.Common.Text.{strncpy}
use kuberne_tsn.Preload.{
  af_inet, InetAddr, KtSocket, KtInterface, interface_exists, interface_find, socket_find, socket,
  remove, close,
}
use kuberne_tsn.Preload.Interfaces.{
  IfAddr, ifnamsiz, AllNamed, IsValid, entry_for, add_interfaces, add_interfaces-Extended,
}
use kuberne_tsn.Preload.Start.{
  Query, value_or_chance, query_and_add_mac_address, query_macs, Network, query_interfaces,
}

-- The query for an interface of this name succeeds, with this address: `default_socket` returns a
-- descriptor, which the variable holds although `socket` returns nothing, and `ioctl` answers for it.
pub record Answered (q : Query) (name sa_data : List ℕ) : Type 0 where
  pub opens : ltb_ℤ q.fd (pos 0) ≡ false
  pub by_chance : q.chance ≡ q.fd
  pub answer : q.ioctl q.fd (strncpy q.ifr_name name ifnamsiz) ≡ some sa_data

eqb_ℤ-refl : (a : ℤ) → eqb_ℤ a a ≡ true
eqb_ℤ-refl a = ground arith

-- the node that `socket` enters
abbrev node : ℤ → KtSocket
node fd = record { fd = fd; prio = negsuc 0; txtime = 0; domain = af_inet }

socket-made : (fd : ℤ) → ltb_ℤ fd (pos 0) ≡ false → socket fd af_inet [] ≡ (none, node fd ∷ [])
unfolding socket socket_find
socket-made fd opens = rw opens refl

close-one : (result fd : ℤ) → (close result (node fd ∷ []) fd).1 ≡ []
unfolding close remove socket_find
close-one result fd = ground (arith, eqb_ℤ-refl fd)

-- A query gives the interface its address, and leaves no socket.
query-Answered :
    (q : Query) (iface : KtInterface) {sa_data : List ℕ}
    → Answered q iface.name sa_data
    → query_and_add_mac_address q iface [] ≡ done (record iface { mac = take 6 sa_data }, [])
unfolding query_and_add_mac_address value_or_chance
query-Answered q iface a =
    let made : socket q.fd af_inet [] ≡ (none, node q.fd ∷ []) = socket-made q.fd a.opens in
    let gone : (close q.close_result (node q.fd ∷ []) q.fd).1 ≡ [] =
      close-one q.close_result q.fd in
    rw (made, a.by_chance, a.opens, a.answer, made, a.by_chance, gone) refl

-- what holds for the number and the name of every interface
abbrev pub EachInterface : (ℕ → List ℕ → Type 0) → List KtInterface → Type 0
EachInterface P [] = Unit
EachInterface P (iface ∷ interfaces) = P iface.ifindex iface.name × EachInterface P interfaces

-- what holds for those that the entries would give
abbrev pub EachEntry : (ℕ → List ℕ → Type 0) → KtInterface → List IfAddr → Type 0
EachEntry P unset [] = Unit
EachEntry P unset (ifa ∷ rest) =
    P ifa.ifindex (strncpy unset.name ifa.name ifnamsiz) × EachEntry P unset rest

-- the interface of an entry
abbrev made : KtInterface → IfAddr → InetAddr → ℕ → KtInterface
made unset ifa addr netmask = record {
  ifindex = ifa.ifindex;
  name = strncpy unset.name ifa.name ifnamsiz;
  addr = addr;
  netmask = netmask;
  mac = unset.mac;
}

-- How the loop goes on after an entry.
data Way (unset : KtInterface) (ifa : IfAddr) (rest : List IfAddr) (interfaces : List KtInterface)
    : Run (List KtInterface) → Type 0 where
  other : ifa.inet ≡ none → Way unset ifa rest interfaces (add_interfaces unset rest interfaces)
  known :
      interface_exists interfaces ifa.ifindex ≡ true
      → Way unset ifa rest interfaces (add_interfaces unset rest interfaces)
  added :
      (addr : InetAddr) (netmask : ℕ)
      → Way unset ifa rest interfaces
          (add_interfaces unset rest (made unset ifa addr netmask ∷ interfaces))
  unnamed : Way unset ifa rest interfaces aborted

add_interfaces-Way :
    (unset : KtInterface) (ifa : IfAddr) (rest : List IfAddr) (interfaces : List KtInterface)
    → Way unset ifa rest interfaces (add_interfaces unset (ifa ∷ rest) interfaces)
unfolding add_interfaces
add_interfaces-Way unset ifa rest interfaces =
    let way = λ (r : Run (List KtInterface)). Way unset ifa rest interfaces r in
    let run = add_interfaces unset (ifa ∷ rest) interfaces in
    elim (Option-cases ifa.inet) [
      | inl e ↦
          let on : run ≡ add_interfaces unset rest interfaces = rw (e, add_interfaces) refl in
          subst way (sym on) (other e)
      | inr ((addr, netmask), e) ↦ elim (Bool-cases ifa.named) [
        | inl has_name ↦ elim (Bool-cases (interface_exists interfaces ifa.ifindex)) [
          | inl old ↦
              let on : run ≡ add_interfaces unset rest interfaces =
                rw (e, has_name, old, add_interfaces) refl in
              subst way (sym on) (known old)
          | inr new ↦
              let on : run ≡ add_interfaces unset rest (made unset ifa addr netmask ∷ interfaces) =
                rw (e, has_name, new, add_interfaces) refl in
              subst way (sym on) (added addr netmask)
        ]
        | inr nameless ↦
            let on : run ≡ aborted = rw (e, nameless, add_interfaces) refl in
            subst way (sym on) unnamed
      ]
    ]

-- The loop that has ended, entry by entry.
data Added (unset : KtInterface) : List IfAddr → List KtInterface → List KtInterface → Type 0 where
  nothing : {interfaces : List KtInterface} → Added unset [] interfaces interfaces
  passed :
      {ifa : IfAddr} {rest : List IfAddr} {interfaces interfaces' : List KtInterface}
      → (ifa.inet ≡ none) ⊎ (interface_exists interfaces ifa.ifindex ≡ true)
      → Added unset rest interfaces interfaces'
      → Added unset (ifa ∷ rest) interfaces interfaces'
  put :
      {ifa : IfAddr} {rest : List IfAddr} {interfaces interfaces' : List KtInterface}
      (addr : InetAddr) (netmask : ℕ)
      → Added unset rest (made unset ifa addr netmask ∷ interfaces) interfaces'
      → Added unset (ifa ∷ rest) interfaces interfaces'

Way-Added :
    {unset : KtInterface} {ifa : IfAddr} {rest : List IfAddr} {interfaces : List KtInterface}
    {r : Run (List KtInterface)} {interfaces' : List KtInterface}
    → ((i : List KtInterface)
        → add_interfaces unset rest i ≡ done interfaces'
        → Added unset rest i interfaces')
    → Way unset ifa rest interfaces r
    → r ≡ done interfaces'
    → Added unset (ifa ∷ rest) interfaces interfaces'
Way-Added {interfaces = interfaces} more (other e) ran = passed (inl e) (more interfaces ran)
Way-Added {interfaces = interfaces} more (known old) ran = passed (inr old) (more interfaces ran)
Way-Added {unset} {ifa} {interfaces = interfaces} more (added addr netmask) ran =
    put addr netmask (more (made unset ifa addr netmask ∷ interfaces) ran)
Way-Added more unnamed ran = absurd cc

add_interfaces-Added :
    (unset : KtInterface) (entries : List IfAddr) (interfaces : List KtInterface)
    {interfaces' : List KtInterface}
    → add_interfaces unset entries interfaces ≡ done interfaces'
    → Added unset entries interfaces interfaces'
unfolding add_interfaces
add_interfaces-Added unset [] interfaces ended =
    subst (Added unset [] interfaces) (done-inj ended) nothing
add_interfaces-Added unset (ifa ∷ rest) interfaces ended =
    Way-Added (λ i ran. add_interfaces-Added unset rest i ran)
      (add_interfaces-Way unset ifa rest interfaces) ended

-- What holds for every entry holds for every interface that the loop leaves.
Added-each :
    (P : ℕ → List ℕ → Type 0) {unset : KtInterface} {entries : List IfAddr}
    {interfaces interfaces' : List KtInterface}
    → EachEntry P unset entries
    → EachInterface P interfaces
    → Added unset entries interfaces interfaces'
    → EachInterface P interfaces'
Added-each P entries each nothing = each
Added-each P entries each (passed why rest) = Added-each P entries.1 each rest
Added-each P entries each (put addr netmask rest) = Added-each P entries.1 (entries.0, each) rest

-- the interfaces with their addresses
abbrev pub with_macs : (ℕ → List ℕ) → List KtInterface → List KtInterface
with_macs sa_data [] = []
with_macs sa_data (iface ∷ interfaces) =
    record iface { mac = take 6 (sa_data iface.ifindex) } ∷ with_macs sa_data interfaces

query_macs-Answered :
    (ask : ℕ → Query) (sa_data : ℕ → List ℕ) (interfaces : List KtInterface)
    → EachInterface (λ i name. Answered (ask i) name (sa_data i)) interfaces
    → query_macs ask interfaces [] ≡ done (with_macs sa_data interfaces, [])
unfolding query_macs
query_macs-Answered ask sa_data [] each = refl
query_macs-Answered ask sa_data (iface ∷ rest) each =
    rw (query-Answered (ask iface.ifindex) iface each.0)
      (rw (query_macs-Answered ask sa_data rest each.1) refl)

-- When `getifaddrs` answers, every entry has a name, and every query finds its descriptor in the variable
-- and an address, the query for the interfaces ends: each number has the interface of the first entry of
-- AF_INET with it, and none without such an entry, no number is there twice, each interface has the first 6
-- bytes of the address that was found for it, and no socket is left in the list.
pub query_interfaces-Answered :
    (net : Network) (sa_data : ℕ → List ℕ) {entries : List IfAddr}
    → net.ifaddrs ≡ some entries
    → AllNamed entries
    → EachEntry (λ i name. Answered (net.ask i) name (sa_data i)) net.unset entries
    → (interfaces : List KtInterface) × (query_interfaces net [] []
        ≡ done (with_macs sa_data interfaces, []))
      × IsValid interfaces
      × ((i : ℕ) → interface_find interfaces i ≡ entry_for net.unset entries i)
unfolding query_interfaces interface_find
query_interfaces-Answered net sa_data {entries} answered named each =
    let (interfaces, ran, extended) = add_interfaces-Extended net.unset entries [] named tt in
    let all = add_interfaces-Added net.unset entries [] ran in
    (
      interfaces,
      rw (answered, ran)
          (query_macs-Answered net.ask sa_data interfaces
            (Added-each (λ i name. Answered (net.ask i) name (sa_data i)) each tt all)),
      extended.valid,
      extended.finds,
    )
