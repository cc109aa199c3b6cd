-- ===== src/Protocol/MessageType.antt =====
-- The numbers of `pb.MessageType`, from implementations/slims/slims/pb/message_types.proto.
use orv.Base.{ℕ}

abbrev pub fault : ℕ
fault = 1

abbrev pub hello : ℕ
hello = 2

abbrev pub hello_ack : ℕ
hello_ack = 3

abbrev pub join : ℕ
join = 4

abbrev pub join_accept : ℕ
join_accept = 5

abbrev pub register : ℕ
register = 6

abbrev pub register_accept : ℕ
register_accept = 7

abbrev pub deregister : ℕ
deregister = 8

abbrev pub deregister_ack : ℕ
deregister_ack = 9

abbrev pub merge : ℕ
merge = 10

abbrev pub merge_accept : ℕ
merge_accept = 11

abbrev pub increment : ℕ
increment = 12

abbrev pub increment_ack : ℕ
increment_ack = 13

abbrev pub service_heartbeat : ℕ
service_heartbeat = 14

abbrev pub service_heartbeat_ack : ℕ
service_heartbeat_ack = 15

abbrev pub vk_heartbeat : ℕ
vk_heartbeat = 16

abbrev pub vk_heartbeat_ack : ℕ
vk_heartbeat_ack = 17

abbrev pub status : ℕ
status = 18

abbrev pub status_resp : ℕ
status_resp = 19

abbrev pub list : ℕ
list = 20

abbrev pub list_ack : ℕ
list_ack = 21

abbrev pub list_resp : ℕ
list_resp = 22

abbrev pub get : ℕ
get = 23

abbrev pub get_ack : ℕ
get_ack = 24

abbrev pub get_resp : ℕ
get_resp = 25

abbrev pub leave : ℕ
leave = 26

abbrev pub leave_ack : ℕ
leave_ack = 27
