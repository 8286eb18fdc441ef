-- ===== src/Client/Lookup.antt =====
-- Looking a message up after an operation on `msg_queues`.
use sidewire.Prelude.{
  ℕ, ◌≡◌, refl, Bool, true, false, ◌&&◌, Option, none, some, if◌then◌else◌, bytes_eq, text_eq,
  nat_eq,
}
use sidewire.Prelude.Dict.{get, get-put, get-del}
use sidewire.Aionetiface.{Str}
use sidewire.AppPacket.{MsgEnum}
use sidewire.Client.{Client, SubQueue, from_sub, sub_queue, find_meta, put_sub, del_sub}

abbrev pub same_type : MsgEnum → MsgEnum → Bool
same_type MsgEnum.msg MsgEnum.msg = true
same_type MsgEnum.msgack MsgEnum.msgack = true
same_type MsgEnum.probe MsgEnum.probe = true
same_type _ _ = false

pub sub_queue-put_sub :
    (t u : MsgEnum) (q r : Str) (d : SubQueue) (c : Client)
    → sub_queue u r (put_sub t q d c).msg_queues
      ≡ (if same_type t u && bytes_eq q r then some d else sub_queue u r c.msg_queues)
unfolding sub_queue put_sub
sub_queue-put_sub MsgEnum.msg MsgEnum.msg q r d c = get-put q r d c.msg_queues.of_msg
sub_queue-put_sub MsgEnum.msg MsgEnum.msgack q r d c = refl
sub_queue-put_sub MsgEnum.msg MsgEnum.probe q r d c = refl
sub_queue-put_sub MsgEnum.msgack MsgEnum.msg q r d c = refl
sub_queue-put_sub MsgEnum.msgack MsgEnum.msgack q r d c = get-put q r d c.msg_queues.of_msgack
sub_queue-put_sub MsgEnum.msgack MsgEnum.probe q r d c = refl
sub_queue-put_sub MsgEnum.probe MsgEnum.msg q r d c = refl
sub_queue-put_sub MsgEnum.probe MsgEnum.msgack q r d c = refl
sub_queue-put_sub MsgEnum.probe MsgEnum.probe q r d c = get-put q r d c.msg_queues.of_probe

pub sub_queue-del_sub :
    (t u : MsgEnum) (q r : Str) (c : Client)
    → sub_queue u r (del_sub t q c).msg_queues
      ≡ (if same_type t u && bytes_eq q r then none else sub_queue u r c.msg_queues)
unfolding sub_queue del_sub
sub_queue-del_sub MsgEnum.msg MsgEnum.msg q r c = get-del q r c.msg_queues.of_msg
sub_queue-del_sub MsgEnum.msg MsgEnum.msgack q r c = refl
sub_queue-del_sub MsgEnum.msg MsgEnum.probe q r c = refl
sub_queue-del_sub MsgEnum.msgack MsgEnum.msg q r c = refl
sub_queue-del_sub MsgEnum.msgack MsgEnum.msgack q r c = get-del q r c.msg_queues.of_msgack
sub_queue-del_sub MsgEnum.msgack MsgEnum.probe q r c = refl
sub_queue-del_sub MsgEnum.probe MsgEnum.msg q r c = refl
sub_queue-del_sub MsgEnum.probe MsgEnum.msgack q r c = refl
sub_queue-del_sub MsgEnum.probe MsgEnum.probe q r c = get-del q r c.msg_queues.of_probe

from_sub-if :
    (k : ℕ) (b : Bool) (x y : Option SubQueue)
    → from_sub k (if b then x else y) ≡ (if b then from_sub k x else from_sub k y)
from_sub-if k true x y = refl
from_sub-if k false x y = refl

pub find_meta-put_sub :
    (t u : MsgEnum) (q r : Str) (k : ℕ) (d : SubQueue) (c : Client)
    → find_meta u r k (put_sub t q d c).msg_queues
      ≡ (if same_type t u && bytes_eq q r then get k d else find_meta u r k c.msg_queues)
unfolding find_meta
find_meta-put_sub t u q r k d c =
    rw (sub_queue-put_sub t u q r d c)
      (from_sub-if k (same_type t u && bytes_eq q r) (some d) (sub_queue u r c.msg_queues))

pub find_meta-del_sub :
    (t u : MsgEnum) (q r : Str) (k : ℕ) (c : Client)
    → find_meta u r k (del_sub t q c).msg_queues
      ≡ (if same_type t u && bytes_eq q r then none else find_meta u r k c.msg_queues)
unfolding find_meta
find_meta-del_sub t u q r k c =
    rw (sub_queue-del_sub t u q r c)
      (from_sub-if k (same_type t u && bytes_eq q r) none (sub_queue u r c.msg_queues))

pub same_type_refl : (t : MsgEnum) → same_type t t ≡ true
same_type_refl MsgEnum.msg = refl
same_type_refl MsgEnum.msgack = refl
same_type_refl MsgEnum.probe = refl

pub same_type-eq : (t u : MsgEnum) → same_type t u ≡ true → t ≡ u
same_type-eq MsgEnum.msg MsgEnum.msg h = refl
same_type-eq MsgEnum.msgack MsgEnum.msgack h = refl
same_type-eq MsgEnum.probe MsgEnum.probe h = refl
same_type-eq _ _ h = absurd (cc h)
