-- ===== src/Net/TcpServer/Registry.antt =====
-- The map of connections of src/net/tcp/tcpServer.cpp: what it holds, and how the acceptance and
-- the removal of a connection change it.
use plugins_engine.Prelude.{
  ℕ, ◌<◌, ◌≡◌, ◌≢◌, refl, sym, ap, ◌∙◌, subst, true, false, Option, none, some, List, [], ◌∷◌, ◌++◌,
  length, drop, inl, inr, ◌⊎◌, arith, ite,
}
use mathlib.Core.Option.{get_or}
use mathlib.Core.Logic.{if_neg, if_pos}
use plugins_engine.Prelude.Assoc.{lookup, lookup-insert, lookup-erase}
use plugins_engine.Prelude.Texts.{Text, Text-discrete}
use plugins_engine.Events.EventCtrl.{update}
use plugins_engine.Net.Address.{ByteOrder, SockaddrIn, ip_to_string}
use plugins_engine.Net.TcpConnect.{connected_handle}
use plugins_engine.Net.TcpConnect.Closing.{is_closed}
use plugins_engine.Threads.EventThreadPool.{EventThreadPool}
use plugins_engine.Net.TcpServer.{
  TcpAccept, TcpServer, make_connect, install, add_connect, remove_connect, admit,
}

-- What the map has under `name`: a connection that was made, that has this name, that tells the server
-- of its end, and that is not closed, unless it is the one being closed.
pub record Entry {L U : Type 0} (closing : Option ℕ) (s : TcpServer L U) (name : Text) (id : ℕ)
    : Type 0 where
  pub made : id < s.next_connect
  pub named : (s.connects id).name ≡ name
  pub told : (s.connects id).tcp.has_close_callback ≡ true
  pub live : (is_closed (s.connects id).tcp.state ≡ false) ⊎ (closing ≡ some id)

abbrev pub Registered : {L U : Type 0} → Option ℕ → TcpServer L U → Type 0
Registered closing s =
    (name : Text) (id : ℕ)
    → lookup Text-discrete name s.connect_pool ≡ some id
    → Entry closing s name id

pub update_same : {A : Type 0} (f : ℕ → A) (i : ℕ) (v : A) → update f i v i ≡ v
update_same f i v = ground arith

pub update_other : {A : Type 0} (f : ℕ → A) (i j : ℕ) (v : A) → j ≢ i → update f i v j ≡ f j
update_other f i j v differs = ground arith

pub drop-append : {A : Type 0} (a b : List A) → drop (length a) (a ++ b) ≡ b
drop-append [] b = refl
drop-append (x ∷ a) b = drop-append a b

module _ {L U : Type 0} where
  pub weaken-Registered : (id : ℕ) (s : TcpServer L U) → Registered none s → Registered (some id) s
  weaken-Registered id s h name j found =
      let e : Entry none s name j = h name j found in
      record {
        made = e.made;
        named = e.named;
        told = e.told;
        live = elim e.live [ inl o ↦ inl o | inr n ↦ absurd (ground (arith, n)) ];
      }

  -- Neither the socket that accepts nor the pool of threads matters to the map.
  pub elsewhere-Registered :
      (a : TcpAccept) (p : EventThreadPool L) (s : TcpServer L U) (closing : Option ℕ)
      → Registered closing s
      → Registered closing (record s { tcp_accept = a; thread_pool = p })
  elsewhere-Registered a p s closing h name id found =
      let e : Entry closing s name id = h name id found in
      record { made = e.made; named = e.named; told = e.told; live = e.live }

  pub remove_connect-Registered :
      (id : ℕ) (s : TcpServer L U)
      → Registered (some id) s
      → Registered none (remove_connect (s.connects id).name s)
  unfolding remove_connect
  remove_connect-Registered id s h name j found = elim (Text-discrete (s.connects id).name name) [
    | yes p ↦ absurd (
        ground
          (arith, found, p, lookup-erase Text-discrete (s.connects id).name name s.connect_pool))
    | no p ↦
        let before : lookup Text-discrete name s.connect_pool ≡ some j =
          sym (
            lookup-erase Text-discrete (s.connects id).name name s.connect_pool
            ∙ if_neg (Text-discrete (s.connects id).name name) p _ _)
          ∙ found in
        let e : Entry (some id) s name j = h name j before in
        record {
          made = e.made;
          named = e.named;
          told = e.told;
          live = elim e.live [
            | inl o ↦ inl o
            | inr q ↦ absurd (p (ap (λ o. (s.connects (get_or o id)).name) q ∙ e.named))
          ];
        }
  ]

  new-Entry :
      (order : ByteOrder) (loop : L) (fd : ℕ) (addr : SockaddrIn) (s : TcpServer L U) (name : Text)
      → ip_to_string order addr ≡ name
      → Entry none (admit order loop fd addr s) name s.next_connect
  unfolding admit add_connect install make_connect connected_handle
  new-Entry order loop fd addr s name h =
      let same =
        update_same s.connects s.next_connect (install (make_connect order loop addr fd)) in
      record {
        made = omega arith;
        named = ap (λ c. c.name) same ∙ h;
        told = ap (λ c. c.tcp.has_close_callback) same;
        live = inl (ap (λ c. is_closed c.tcp.state) same);
      }

  old-Entry :
      (order : ByteOrder) (loop : L) (fd : ℕ) (addr : SockaddrIn) (s : TcpServer L U) (name : Text)
      (id : ℕ)
      → Entry none s name id
      → Entry none (admit order loop fd addr s) name id
  unfolding admit add_connect
  old-Entry order loop fd addr s name id e =
      let made : id < s.next_connect = e.made in
      let same =
        update_other s.connects s.next_connect id (install (make_connect order loop addr fd))
          (λ p. absurd (omega (arith, made, p))) in
      record {
        made = omega (arith, made);
        named = ap (λ c. c.name) same ∙ e.named;
        told = ap (λ c. c.tcp.has_close_callback) same ∙ e.told;
        live = rw same e.live;
      }

  -- The map does not lose a connection by the acceptance of another, and does not take that one up
  -- under a name that is in use.
  pub lookup-admit :
      (order : ByteOrder) (loop : L) (fd : ℕ) (addr : SockaddrIn) (s : TcpServer L U) (at : Text)
      → lookup Text-discrete at (admit order loop fd addr s).connect_pool
        ≡ ite
            (Text-discrete (ip_to_string order addr) at)
            (some (
              get_or
                (lookup Text-discrete (ip_to_string order addr) s.connect_pool)
                s.next_connect))
            (lookup Text-discrete at s.connect_pool)
  unfolding admit add_connect
  lookup-admit order loop fd addr s at =
      lookup-insert Text-discrete (ip_to_string order addr) at s.next_connect s.connect_pool

  by_found :
      (order : ByteOrder) (loop : L) (fd : ℕ) (addr : SockaddrIn) (s : TcpServer L U) (name : Text)
      (id : ℕ) (o : Option ℕ)
      → Registered none s
      → ip_to_string order addr ≡ name
      → lookup Text-discrete name s.connect_pool ≡ o
      → get_or o s.next_connect ≡ id
      → Entry none (admit order loop fd addr s) name id
  by_found order loop fd addr s name id none h p found q =
      subst (Entry none (admit order loop fd addr s) name) q (new-Entry order loop fd addr s name p)
  by_found order loop fd addr s name id (some j) h p found q =
      subst (Entry none (admit order loop fd addr s) name) q
        (old-Entry order loop fd addr s name j (h name j found))

  pub admit-Registered :
      (order : ByteOrder) (loop : L) (fd : ℕ) (addr : SockaddrIn) (s : TcpServer L U)
      → Registered none s
      → Registered none (admit order loop fd addr s)
  admit-Registered order loop fd addr s h name id found =
      elim (Text-discrete (ip_to_string order addr) name) [
        | yes p ↦
            by_found order loop fd addr s name id (lookup Text-discrete name s.connect_pool) h p
              refl
              (ap (λ n. get_or (lookup Text-discrete n s.connect_pool) s.next_connect) (sym p)
                ∙ ap (λ o. get_or o 0)
                    (sym (
                        lookup-admit order loop fd addr s name
                        ∙ if_pos (Text-discrete (ip_to_string order addr) name) p _ _)
                      ∙ found))
        | no p ↦ old-Entry order loop fd addr s name id (
            h name id (
              sym (
                lookup-admit order loop fd addr s name
                ∙ if_neg (Text-discrete (ip_to_string order addr) name) p _ _)
              ∙ found))
      ]
