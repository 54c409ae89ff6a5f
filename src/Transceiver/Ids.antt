-- ===== src/Transceiver/Ids.antt =====
-- `IdType` of src/transceiver/util.rs: the key of the packets that wait for an answer.
use lmc_rs.Prelude.{ℕ, ◌≡◌, ◌↔◌, refl, sym, ap, ◌∙◌, Bool, true, ◌&&◌, ◌==◌, arith, if◌then◌else◌}
use lmc_rs.Prelude.Maps.{Eq}
use lmc_rs.Packets.Control.{PacketType, type_code}

pub record IdType : Type 0 where
  pub ty : PacketType
  pub id : ℕ

abbrev pub publish : ℕ → IdType
publish id = record { ty = PacketType.publish; id = id }

abbrev pub subscribe : ℕ → IdType
subscribe id = record { ty = PacketType.subscribe; id = id }

abbrev pub pub_rec : ℕ → IdType
pub_rec id = record { ty = PacketType.pub_rec; id = id }

abbrev pub pub_rel : ℕ → IdType
pub_rel id = record { ty = PacketType.pub_rel; id = id }

abbrev pub unsubscribe : ℕ → IdType
unsubscribe id = record { ty = PacketType.unsubscribe; id = id }

-- The type with a code.
abbrev of_code : ℕ → PacketType
of_code n =
    if n == 1
    then PacketType.connect
    else if n == 2
    then PacketType.conn_ack
    else if n == 3
    then PacketType.publish
    else if n == 4
    then PacketType.pub_ack
    else if n == 5
    then PacketType.pub_rec
    else if n == 6
    then PacketType.pub_rel
    else if n == 7
    then PacketType.pub_comp
    else if n == 8
    then PacketType.subscribe
    else if n == 9
    then PacketType.sub_ack
    else if n == 10
    then PacketType.unsubscribe
    else if n == 11
    then PacketType.unsub_ack
    else if n == 12
    then PacketType.ping_req
    else if n == 13
    then PacketType.ping_resp
    else PacketType.disconnect

of_code-type_code : (p : PacketType) → of_code (type_code p) ≡ p
of_code-type_code PacketType.connect = refl
of_code-type_code PacketType.conn_ack = refl
of_code-type_code PacketType.publish = refl
of_code-type_code PacketType.pub_ack = refl
of_code-type_code PacketType.pub_rec = refl
of_code-type_code PacketType.pub_rel = refl
of_code-type_code PacketType.pub_comp = refl
of_code-type_code PacketType.subscribe = refl
of_code-type_code PacketType.sub_ack = refl
of_code-type_code PacketType.unsubscribe = refl
of_code-type_code PacketType.unsub_ack = refl
of_code-type_code PacketType.ping_req = refl
of_code-type_code PacketType.ping_resp = refl
of_code-type_code PacketType.disconnect = refl

type_code_inj : (p q : PacketType) → type_code p ≡ type_code q → p ≡ q
type_code_inj p q e = sym (of_code-type_code p) ∙ ap of_code e ∙ of_code-type_code q

abbrev pub id_beq : IdType → IdType → Bool
id_beq a b = type_code a.ty == type_code b.ty && a.id == b.id

pub id_beq_lem : (a b : IdType) → (id_beq a b ≡ true) ↔ (a ≡ b)
id_beq_lem a b = ground (arith, type_code_inj a.ty b.ty)

instance abbrev pub id_eq : Eq IdType
id_eq = record { beq = id_beq; beq_lem = id_beq_lem }
