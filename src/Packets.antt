-- ===== src/Packets.antt =====
-- types.go and protocol.go: the bodies of the packets that the server sends. An int is its two's
-- complement pattern, a float its bit pattern, a string its bytes, and an array of bytes a list.
pub mod Chat
mod Tests
use cyu_core.Base.{
  ℕ, zero, suc, ◌+◌, ◌-◌, ◌%◌, ◌^◌, Bool, true, false, ◌||◌, List, [], ◌∷◌, ◌++◌, ◌==◌,
  if◌then◌else◌, length, bit_or,
}
use cyu_core.Stream.BigEndian.{big_endian}
use cyu_core.Protocol.{append_string}
use cyu_core.Chunk.{write_var_int}
use cyu_core.Positions.{pack_position}

unfoldable pub write_string : List ℕ → List ℕ
write_string s = append_string [] s

-- A byte of a Boolean.
abbrev pub flag : Bool → List ℕ
flag b = if b then 1 ∷ [] else 0 ∷ []

unfoldable pub build_login_success : (proto : ℕ) (uuid name : List ℕ) → List ℕ
unfolding write_string write_var_int
build_login_success proto uuid name =
    uuid
    ++ (write_string name
        ++ (write_var_int 0 ++ (if (proto == 766) || (proto == 767) then 0 ∷ [] else uuid)))

-- "minecraft", "core" and "minecraft:overworld"
abbrev minecraft : List ℕ
minecraft = 0x6d ∷ 0x69 ∷ 0x6e ∷ 0x65 ∷ 0x63 ∷ 0x72 ∷ 0x61 ∷ 0x66 ∷ 0x74 ∷ []

abbrev core : List ℕ
core = 0x63 ∷ 0x6f ∷ 0x72 ∷ 0x65 ∷ []

abbrev overworld : List ℕ
overworld = minecraft ++ (0x3a ∷ 0x6f ∷ 0x76 ∷ 0x65 ∷ 0x72 ∷ 0x77 ∷ 0x6f ∷ 0x72 ∷ 0x6c ∷ 0x64 ∷ [])

unfoldable pub build_known_packs : (version : List ℕ) → List ℕ
unfolding write_string write_var_int
build_known_packs version =
    write_var_int 1 ++ (write_string minecraft ++ (write_string core ++ write_string version))

unfoldable pub build_play_login : (entity_id max_players game_mode : ℕ) (is_flat : Bool) → List ℕ
unfolding write_string write_var_int
build_play_login entity_id max_players game_mode is_flat =
    big_endian 4 (entity_id % 2 ^ 32)
    ++ ((0 ∷ [])
        ++ (write_var_int 1
            ++ (write_string overworld
                ++ (write_var_int max_players
                    ++ (write_var_int 8
                        ++ (write_var_int 8
                            ++ ((0 ∷ 1 ∷ 0 ∷ [])
                                ++ (write_var_int 0
                                    ++ (write_string overworld
                                        ++ (big_endian 8 123456789
                                            ++ ((game_mode % 256 ∷ 0xff ∷ 0 ∷ [])
                                                ++ (flag is_flat
                                                    ++ ((0 ∷ [])
                                                        ++ (write_var_int 0
                                                            ++ (write_var_int 63
                                                            ++ (0 ∷ 0 ∷ []))))))))))))))))

-- The position and the rotation of an entity, with no velocity.
unfoldable pub write_pose : (x y z yaw pitch : ℕ) → List ℕ
write_pose x y z yaw pitch =
    big_endian 8 x
    ++ (big_endian 8 y
        ++ (big_endian 8 z
            ++ (big_endian 8 0
                ++ (big_endian 8 0
                    ++ (big_endian 8 0 ++ (big_endian 4 yaw ++ big_endian 4 pitch))))))

unfoldable pub build_player_position_sync : (teleport_id x y z yaw pitch : ℕ) → List ℕ
unfolding write_var_int write_pose
build_player_position_sync teleport_id x y z yaw pitch =
    write_var_int teleport_id ++ (write_pose x y z yaw pitch ++ big_endian 4 0)

unfoldable pub build_center_chunk : (cx cz : ℕ) → List ℕ
unfolding write_var_int
build_center_chunk cx cz = write_var_int cx ++ write_var_int cz

unfoldable pub build_game_event_waiting_chunks : List ℕ
build_game_event_waiting_chunks = 13 ∷ big_endian 4 0

unfoldable pub build_player_info_add : (uuid name : List ℕ) (game_mode : ℕ) → List ℕ
unfolding write_string write_var_int
build_player_info_add uuid name game_mode =
    (0x3d ∷ [])
    ++ (write_var_int 1
        ++ (uuid
            ++ (write_string name
                ++ (write_var_int 0
                    ++ (write_var_int game_mode ++ ((1 ∷ []) ++ (write_var_int 1 ++ (0 ∷ []))))))))

unfoldable pub build_player_info_remove : (uuid : List ℕ) → List ℕ
unfolding write_var_int
build_player_info_remove uuid = write_var_int 1 ++ uuid

unfoldable pub build_entity_position_sync :
    (entity_id x y z yaw pitch : ℕ) (on_ground : Bool) → List ℕ
unfolding write_var_int write_pose
build_entity_position_sync entity_id x y z yaw pitch on_ground =
    write_var_int entity_id ++ (write_pose x y z yaw pitch ++ flag on_ground)

unfoldable pub write_ids : List ℕ → List ℕ
unfolding write_var_int
write_ids [] = []
write_ids (id ∷ ids) = write_var_int id ++ write_ids ids

unfoldable pub build_remove_entities : (entity_ids : List ℕ) → List ℕ
unfolding write_var_int write_ids
build_remove_entities entity_ids = write_var_int (length entity_ids) ++ write_ids entity_ids

unfoldable pub build_animate : (entity_id animation : ℕ) → List ℕ
unfolding write_var_int
build_animate entity_id animation = write_var_int entity_id ++ (animation ∷ [])

unfoldable pub build_block_update : (x y z block_state_id : ℕ) → List ℕ
unfolding write_var_int pack_position
build_block_update x y z block_state_id =
    big_endian 8 (pack_position x y z) ++ write_var_int block_state_id

unfoldable pub build_block_changed_ack : (sequence : ℕ) → List ℕ
unfolding write_var_int
build_block_changed_ack sequence = write_var_int sequence

unfoldable pub build_set_time : (world_age time_of_day : ℕ) → List ℕ
build_set_time world_age time_of_day = big_endian 8 world_age ++ big_endian 8 time_of_day

-- The names of the built-in commands, in the order of the packet: help, gamemode, tp, time, say, spawn,
-- clear and ping.
abbrev pub built_in_commands : List (List ℕ)
built_in_commands =
    (0x68 ∷ 0x65 ∷ 0x6c ∷ 0x70 ∷ [])
    ∷ (0x67 ∷ 0x61 ∷ 0x6d ∷ 0x65 ∷ 0x6d ∷ 0x6f ∷ 0x64 ∷ 0x65 ∷ [])
    ∷ (0x74 ∷ 0x70 ∷ [])
    ∷ (0x74 ∷ 0x69 ∷ 0x6d ∷ 0x65 ∷ [])
    ∷ (0x73 ∷ 0x61 ∷ 0x79 ∷ [])
    ∷ (0x73 ∷ 0x70 ∷ 0x61 ∷ 0x77 ∷ 0x6e ∷ [])
    ∷ (0x63 ∷ 0x6c ∷ 0x65 ∷ 0x61 ∷ 0x72 ∷ [])
    ∷ (0x70 ∷ 0x69 ∷ 0x6e ∷ 0x67 ∷ [])
    ∷ []

-- The loop over the indices of the children of the root, `left` of them from `i` on.
unfoldable pub write_children : (left i : ℕ) → List ℕ
unfolding write_var_int
write_children zero i = []
write_children (suc left) i = write_var_int i ++ write_children left (suc i)

unfoldable pub write_literals : List (List ℕ) → List ℕ
unfolding write_string write_var_int
write_literals [] = []
write_literals (cmd ∷ cmds) =
    (1 ∷ []) ++ (write_var_int 0 ++ (write_string cmd ++ write_literals cmds))

unfoldable pub build_commands_packet : List ℕ
unfolding write_var_int write_children write_literals
build_commands_packet =
    let n = length built_in_commands in
    write_var_int (1 + n)
    ++ ((0 ∷ [])
        ++ (write_var_int n
            ++ (write_children n 1 ++ (write_literals built_in_commands ++ write_var_int 0))))
