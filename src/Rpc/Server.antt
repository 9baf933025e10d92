-- ===== src/Rpc/Server.antt =====
-- lab2/labrpc/labrpc.go: servers, their services, and the dispatch of a request to a method. What
-- `reflect` and `labgob` do in a handler call (decode the arguments, call, encode the reply) is the
-- function that a method is here, from the argument bytes to the reply bytes. `Obj` is the receiver.
pub mod Routing
use cs426_spring2022_labs.Common.{
  ◌≡◌, refl, sym, ℕ, suc, ◌+◌, Bool, true, false, ◌&&◌, ◌||◌, Option, none, some, List, [], ◌∷◌,
  Outcome, returns, panics, exits, ◌>>=◌, if◌then◌else◌, ◌==◌, Key, take, drop, ℕ_discrete,
}
use cs426_spring2022_labs.Common.GoMap.{GoMap, get, insert}

-- A string as its bytes.
abbrev pub Text : Type 0
Text = List ℕ

pub cons-eq : (x y : ℕ) (xs ys : Text) → x ≡ y → xs ≡ ys → x ∷ xs ≡ y ∷ ys
cons-eq x y xs ys p q = cc

pub head-ne : (x y : ℕ) (xs ys : Text) → ¬ (x ≡ y) → ¬ (x ∷ xs ≡ y ∷ ys)
head-ne x y xs ys h e = h (cc e)

pub tail-ne : (x y : ℕ) (xs ys : Text) → ¬ (xs ≡ ys) → ¬ (x ∷ xs ≡ y ∷ ys)
tail-ne x y xs ys h e = h (cc e)

pub nil-ne-cons : (x : ℕ) (xs : Text) → ¬ ([] ≡ x ∷ xs)
nil-ne-cons x xs e = cc

unfoldable pub text_same : (a b : Text) → Dec (a ≡ b)
unfolding ℕ_discrete
text_same [] [] = yes refl
text_same [] (y ∷ ys) = no (nil-ne-cons y ys)
text_same (x ∷ xs) [] = no (λ e. nil-ne-cons x xs (sym e))
text_same (x ∷ xs) (y ∷ ys) = elim (text_same xs ys) [
  | no ne ↦ no (tail-ne x y xs ys ne)
  | yes q ↦ elim (ℕ_discrete x y) [
    | no ne ↦ no (head-ne x y xs ys ne)
    | yes p ↦ yes (cons-eq x y xs ys p q)
  ]
]

instance abbrev pub text_key : Key Text
text_key = record { same = text_same }

pub record ReqMsg (E : Type 0) : Type 0 where
  pub endname : E
  pub svc_meth : Text
  pub args : Text

pub record ReplyMsg : Type 0 where
  pub ok : Bool
  pub reply : Text

abbrev pub failure : ReplyMsg
failure = record { ok = false; reply = [] }

module _ (Obj : Type 0) where
  abbrev pub Method : Type 0
  Method = Text → Obj → Obj × Text

-- What `reflect` tells of a method of the receiver's type.
pub record MethodInfo (Obj : Type 0) : Type 0 where
  pub name : Text
  pub pkg_path : Text
  pub num_in : ℕ
  pub second_is_ptr : Bool
  pub num_out : ℕ
  pub call : Method Obj

pub record Service (Obj : Type 0) : Type 0 where
  pub name : Text
  pub rcvr : Obj
  pub methods : GoMap Text (Method Obj)

pub record Server (Obj : Type 0) : Type 0 where
  pub services : GoMap Text (Service Obj)
  pub count : ℕ

abbrev is_empty : Text → Bool
is_empty [] = true
is_empty (_ ∷ _) = false

-- `strings.LastIndex`; `none` is -1.
unfoldable pub last_index : Text → ℕ → Option ℕ
last_index [] c = none
last_index (x ∷ xs) c = elim (last_index xs c) [
  | some i ↦ some (suc i)
  | none ↦ if x == c then some 0 else none
]

module _ {Obj : Type 0} where
  -- `mtype.In(2)` is read only of a method with three inputs, so it is there.
  unfoldable pub is_handler : MethodInfo Obj → Bool
  is_handler m =
      if is_empty m.pkg_path
      then if m.num_in == 3 then (if m.second_is_ptr then m.num_out == 0 else false) else false
      else false

  unfoldable pub add_methods :
      List (MethodInfo Obj) → GoMap Text (Method Obj) → GoMap Text (Method Obj)
  add_methods [] methods = methods
  add_methods (m ∷ rest) methods =
      add_methods rest (if is_handler m then insert methods m.name m.call else methods)

  unfoldable pub make_service : (name : Text) → Obj → List (MethodInfo Obj) → Service Obj
  unfolding add_methods
  make_service name rcvr infos = record { name = name; rcvr = rcvr; methods = add_methods infos [] }

  abbrev pub make_server : Server Obj
  make_server = record { services = []; count = 0 }

  unfoldable pub add_service : Server Obj → Service Obj → Server Obj
  add_service rs svc = record rs { services = insert rs.services svc.name svc }

  -- `Service.dispatch`
  unfoldable pub dispatch_method : Service Obj → Text → Text → Outcome (Service Obj × ReplyMsg)
  dispatch_method svc methname args = elim (get svc.methods methname) [
    | none ↦ exits
    | some method ↦
        let (rcvr, reply) = method args svc.rcvr in
        returns (record svc { rcvr = rcvr }, record { ok = true; reply = reply })
  ]

  dispatch_service : Server Obj → Text → Text → Text → Outcome (Server Obj × ReplyMsg)
  unfolding dispatch_method
  dispatch_service rs service_name method_name args = elim (get rs.services service_name) [
    | none ↦ exits
    | some service ↦ do
      (service', reply) ← dispatch_method service method_name args
      returns (record rs { services = insert rs.services service_name service' }, reply)
  ]

  -- `Server.dispatch`: a slice that ends at -1 panics.
  unfoldable pub dispatch : {E : Type 0} → Server Obj → ReqMsg E → Outcome (Server Obj × ReplyMsg)
  unfolding dispatch_service last_index
  dispatch rs req =
      let rs' : Server Obj = record rs { count = suc rs.count } in
      elim (last_index req.svc_meth b'.') [
        | none ↦ panics
        | some dot ↦
            dispatch_service rs' (take dot req.svc_meth) (drop (suc dot) req.svc_meth) req.args
      ]

  abbrev pub get_count : Server Obj → ℕ
  get_count rs = rs.count
