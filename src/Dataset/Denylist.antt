-- ===== src/Dataset/Denylist.antt =====
-- internal/dataset/denylist.go: the shipped escalation denylist.
use taskgrant.Prelude.{
  Bool, true, false, Option, none, some, List, [], ◌∷◌, Bytes, codes, same, lower, trim_space, sort,
  add_new, map,
}
use taskgrant.Prelude.Maps.{get}

-- The canonical names; the map's keys are their lowercase forms.
abbrev pub canonical_names : List Bytes
canonical_names =
    codes "iam:PassRole"
    ∷ codes "iam:CreateAccessKey"
    ∷ codes "iam:AttachRolePolicy"
    ∷ codes "iam:PutRolePolicy"
    ∷ codes "iam:AttachUserPolicy"
    ∷ codes "iam:PutUserPolicy"
    ∷ codes "iam:AttachGroupPolicy"
    ∷ codes "iam:PutGroupPolicy"
    ∷ codes "iam:CreatePolicyVersion"
    ∷ codes "iam:SetDefaultPolicyVersion"
    ∷ codes "iam:UpdateAssumeRolePolicy"
    ∷ codes "iam:CreateLoginProfile"
    ∷ codes "iam:UpdateLoginProfile"
    ∷ codes "iam:AddUserToGroup"
    ∷ codes "sts:AssumeRole"
    ∷ codes "lambda:AddPermission"
    ∷ codes "lambda:UpdateFunctionCode"
    ∷ codes "kms:PutKeyPolicy"
    ∷ codes "s3:PutBucketPolicy"
    ∷ codes "ec2:ModifyInstanceAttribute"
    ∷ codes "glue:UpdateDevEndpoint"
    ∷ codes "cloudformation:CreateStack"
    ∷ codes "ssm:SendCommand"
    ∷ codes "ssm:StartSession"
    ∷ codes "secretsmanager:PutResourcePolicy"
    ∷ codes "sns:AddPermission"
    ∷ codes "sqs:AddPermission"
    ∷ codes "ecr:SetRepositoryPolicy"
    ∷ []

unfoldable pub escalation_denylist : List (Bytes × Bytes)
escalation_denylist = map (λ name. (lower name, name)) canonical_names

unfoldable pub canonical : Bytes → Option Bytes
canonical action = get same (lower (trim_space action)) escalation_denylist

unfoldable pub is_escalation_action : Bytes → Bool
is_escalation_action action = elim (canonical action) [ none ↦ false | some c ↦ true ]

-- `EscalationDenylist()`.
unfoldable pub escalation_names : List Bytes
escalation_names = sort canonical_names

escalation_loop : List Bytes → List Bytes → List Bytes
escalation_loop hits [] = hits
escalation_loop hits (a ∷ actions) = elim (canonical a) [
  | none ↦ escalation_loop hits actions
  | some c ↦ escalation_loop (add_new hits c) actions
]

unfoldable pub escalation_actions_in : List Bytes → List Bytes
unfolding escalation_loop
escalation_actions_in actions = escalation_loop [] actions
