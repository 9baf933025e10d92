-- ===== src/Rpc/Server/Routing.antt =====
-- How lab2/labrpc/labrpc.go finds the handler of a request.
use cs426_spring2022_labs.Common.{
  ◌⊎◌, ◌⊎◌, ℕ, suc, ◌≡◌, refl, ap, ◌∙◌, true, none, some, List, [], ◌∷◌, ◌++◌, returns, arith,
  length, take, drop, In, inl, inr, Bool-cases, sym,
}
use cs426_spring2022_labs.Common.GoMap.{get-insert_self, get-insert_ne, GoMap, get, insert}
use cs426_spring2022_labs.Rpc.Server.{
  make_service, dispatch_service, dispatch_method, Text, text_key, Method, MethodInfo, Service,
  Server, is_handler, add_methods, last_index, dispatch,
}

last_index_absent : (xs : Text) (c : ℕ) → ¬ In c xs → last_index xs c ≡ none
unfolding last_index
last_index_absent [] c h = refl
last_index_absent (x ∷ xs) c h =
    ground (arith, last_index_absent xs c (λ i. h (inr i)), λ (e : x ≡ c). h (inl (sym e)))

last_index-append :
    (xs ys : Text) (c : ℕ) → ¬ In c ys → last_index (xs ++ c ∷ ys) c ≡ some (length xs)
unfolding last_index
last_index-append [] ys c h = ground (arith, last_index_absent ys c h)
last_index-append (x ∷ xs) ys c h = ground (arith, last_index-append xs ys c h)

take-append : (xs ys : Text) → take (length xs) (xs ++ ys) ≡ xs
take-append [] ys = refl
take-append (x ∷ xs) ys = ap (◌∷◌ x) (take-append xs ys)

drop-append : (xs ys : Text) (c : ℕ) → drop (suc (length xs)) (xs ++ c ∷ ys) ≡ ys
drop-append [] ys c = refl
drop-append (x ∷ xs) ys c = drop-append xs ys c

module _ {Obj : Type 0} where
  -- A request for `service.method`, where the method's name has no dot, goes to that method of that
  -- service: it runs on the argument bytes and the service's receiver, whose new state is stored, the
  -- reply is the method's, and the server counts one request more.
  pub dispatch-routes :
      {E : Type 0} (rs : Server Obj) (endname : E) (service_name method_name args : Text)
      (svc : Service Obj) (m : Method Obj)
      → ¬ In b'.' method_name
      → get rs.services service_name ≡ some svc
      → get svc.methods method_name ≡ some m
      → dispatch rs
          (record { endname = endname; svc_meth = service_name ++ b'.' ∷ method_name; args = args })
        ≡ returns (
          record {
            services = insert rs.services service_name (record svc { rcvr = (m args svc.rcvr).0 });
            count = suc rs.count;
          },
          record { ok = true; reply = (m args svc.rcvr).1 },
        )
  unfolding dispatch
  dispatch-routes rs endname service_name method_name args svc m no_dot found has =
      rw
        (
          last_index-append service_name method_name b'.' no_dot,
          take-append service_name (b'.' ∷ method_name),
          drop-append service_name method_name b'.',
          dispatch,
        )
        (rw (found, dispatch_service) (rw (has, dispatch_method)))

  handler_shape :
      (i : MethodInfo Obj)
      → is_handler i ≡ true
      → (i.pkg_path ≡ []) × (i.num_in ≡ 3) × (i.second_is_ptr ≡ true) × (i.num_out ≡ 0)
  unfolding is_handler
  handler_shape i h = ground arith

  -- The handlers that a service ends up with, after those it has already.
  get-add_methods :
      (infos : List (MethodInfo Obj)) (methods : GoMap Text (Method Obj)) (name : Text)
      (m : Method Obj)
      → get (add_methods infos methods) name ≡ some m
      → (get methods name ≡ some m)
        ⊎ ((i : MethodInfo Obj) × In i infos
            × (is_handler i ≡ true)
            × (i.name ≡ name)
            × (i.call ≡ m))
  unfolding add_methods
  get-add_methods [] methods name m h = inl h
  get-add_methods (i ∷ rest) methods name m h = elim (Bool-cases (is_handler i)) [
    | inr no_handler ↦
        elim (get-add_methods rest methods name m (rw (no_handler, add_methods) at h)) [
          | inl old ↦ inl old
          | inr (j, at_, a, b, c) ↦ inr (j, inr at_, a, b, c)
        ]
    | inl handler ↦
        elim (get-add_methods rest (insert methods i.name i.call) name m
          (rw (handler, add_methods) at h)) [
            | inr (j, at_, a, b, c) ↦ inr (j, inr at_, a, b, c)
            | inl new ↦ elim (text_key.same name i.name) [
              | yes e ↦ inr (
                i,
                inl refl,
                handler,
                sym e,
                some_injective i.call m (sym (rw e (get-insert_self methods i.name i.call)) ∙ new),
              )
              | no ne ↦ inl (sym (get-insert_ne methods i.name name i.call ne) ∙ new)
            ]
          ]
  ]
    where
      some_injective : (a b : Method Obj) → some a ≡ some b → a ≡ b
      some_injective a b e = cc

  -- The methods of a service are those of the receiver that look like handlers: exported, with three
  -- inputs of which the last is a pointer, and no output.
  pub make_service_methods :
      (name : Text) (rcvr : Obj) (infos : List (MethodInfo Obj)) (method_name : Text)
      (m : Method Obj)
      → get (make_service name rcvr infos).methods method_name ≡ some m
      → (i : MethodInfo Obj) × In i infos
        × (i.pkg_path ≡ [])
        × (i.num_in ≡ 3)
        × (i.second_is_ptr ≡ true)
        × (i.num_out ≡ 0)
        × (i.name ≡ method_name)
        × (i.call ≡ m)
  unfolding make_service get
  make_service_methods name rcvr infos method_name m h =
      elim (get-add_methods infos [] method_name m h) [
        | inl none_yet ↦ absurd (cc none_yet)
        | inr (i, at_, handler, same, call) ↦
            let (path, ins, ptr, outs) = handler_shape i handler in
            (i, at_, path, ins, ptr, outs, same, call)
      ]
