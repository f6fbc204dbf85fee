-- ===== src/Messages/Signals1.antt =====
-- The backend's sentences and their message codes, part 1 of 3 (SIGNALS of
-- frontend/src/utils/errShapes.ts).
use phpo.Base.{List, [], ◌∷◌, Text, lit}

abbrev pub signals_1 : List (Text × Text)
signals_1 =
    (lit "已有任务运行中，请等待完成后再操作", lit "err.taskBusy")
    ∷ (lit "请先完成 phpo 工作目录初始化", lit "err.homeNotReady")
    ∷ (lit "版本号不合法（禁止路径分隔符与 ..）", lit "err.versionInvalid")
    ∷ (lit "该版本已安装", lit "err.versionDup")
    ∷ (lit "Nginx 为单例服务，已安装", lit "err.nginxSingle")
    ∷ (lit "端口格式不正确（1–65535）", lit "err.portInvalid")
    ∷ (lit "端口已被占用", lit "err.portInUse")
    ∷ (lit "端口 {from} 已被占用，自动顺延至 {to}", lit "err.portAdvance")
    ∷ (lit "域名格式不正确", lit "err.domainInvalid")
    ∷ (lit "域名已存在", lit "err.domainExists")
    ∷ (lit "站点目录不能为空", lit "err.rootEmpty")
    ∷ (lit "站点目录必须位于 WWW_ROOT 内", lit "err.rootEscaped")
    ∷ (lit "站点目录不在 WWW_ROOT 内（允许，但请确认挂载与访问路径正确）", lit "err.rootOutsideWww")
    ∷ (lit "该目录已被其他站点使用", lit "err.rootDuplicated")
    ∷ (lit "路径不合法（不允许 .. 或空段）", lit "err.pathTraversal")
    ∷ (lit "目标服务/版本未安装", lit "err.notInstalled")
    ∷ (lit "服务正在运行，请先停止", lit "err.isRunning")
    ∷ (lit "服务未运行", lit "err.notRunning")
    ∷ (lit "同一操作已在任务队列中：{label}", lit "err.taskQueued")
    ∷ (lit "存在依赖该服务的站点，无法继续", lit "err.hasDependents")
    ∷ (lit "备份归档不存在", lit "err.backupMissing")
    ∷ (lit "离线缓存条目不存在", lit "err.offlineMissing")
    ∷ (lit "服务不存在", lit "err.svcMissing")
    ∷ (lit "站点不存在", lit "err.siteMissing")
    ∷ (lit "扩展名不合法", lit "err.extInvalid")
    ∷ (lit "配置内容不能为空", lit "err.configEmpty")
    ∷ (lit "请先安装 Nginx", lit "err.nginxNeeded")
    ∷ (lit "请先安装一个 PHP 版本", lit "err.phpNeeded")
    ∷ (lit "待导入的文件不存在", lit "err.fileMissing")
    ∷ (lit "域名已存在: {domain}", lit "err.domainExistsWith")
    ∷ (lit "站点不存在: {domain}", lit "err.siteMissingWith")
    ∷ (lit "目标服务/版本未安装: PHP {version}", lit "err.notInstalledPhp")
    ∷ (lit "目标服务/版本未安装: {what}", lit "err.notInstalledWith")
    ∷ (lit "备份归档不存在: {name}", lit "err.backupMissingWith")
    ∷ (lit "该目录已被其他站点使用: {path}", lit "err.rootDuplicatedWith")
    ∷ (lit "端口已被占用: {port} ({owner})", lit "err.portInUseDetail")
    ∷ (lit "镜像源地址不正确: 不能为空", lit "err.registryHostEmpty")
    ∷ (lit "镜像源地址不正确: {value}（不能含空白字符）", lit "err.registryHostSpace")
    ∷ (lit "镜像源地址不正确: {value}（只填主机名或「主机:端口」，不要带路径）", lit "err.registryHostPath")
    ∷ (lit "镜像源地址不正确: {value}", lit "err.registryHostBad")
    ∷ (lit "缓存文件类型只能是 image / apk / pecl，得 {field}", lit "err.cacheFieldType")
    ∷ (lit "{field} 扩展只能导入到 php 缓存", lit "err.extImportPhpOnly")
    ∷ (lit "服务尚未初始化", lit "err.appNotReady")
    ∷ (lit "nginx 未安装，无法校验或重载 vhost", lit "err.nginxAbsentNoVhost")
    ∷ (lit "文件夹不存在或打不开：{path}", lit "err.folderNotOpenable")
    ∷ (lit "已重启过一次，工作目录仍未就绪：请检查 config.yaml 的根目录配置与目录权限", lit "err.homeNotReadyAfterRestart")
    ∷ (
      lit
          "端口 {port} 绑不上：rootless 模式的容器引擎不能绑定 1024 以下的端口（不是别的程序占了它）。站点配置已落盘，只是这个端口暂不发布。要放开任选其一：给引擎允许特权端口 sudo sysctl -w net.ipv4.ip_unprivileged_port_start=80（写进 /etc/sysctl.d/ 下次开机仍然有效），或把站点端口改成 1024 以上。改好后任意一次站点保存、或重启容器引擎，这个端口就自动补上发布。",
      lit "err.portRootlessBlocked",
    )
    ∷ (lit "端口 {port} 已被 {owner} 占用：站点配置已落盘，只是这个端口暂不发布（腾出后自动补齐）", lit "err.portBlocked")
    ∷ (lit "补齐 {n} 个站点后重载 nginx 失败", lit "err.reloadAfterHeal")
    ∷ (lit "部分站点 vhost 补齐失败: {why}", lit "err.vhostHealPartial")
    ∷ (lit "已补齐 {domain}，但部分站点 vhost 补齐失败: {why}", lit "err.vhostHealPartialOne")
    ∷ (lit "站点状态缺失: {domain}", lit "err.siteStateMissing")
    ∷ (lit "vhost 改动须经运行中的 Nginx 校验后才能落盘，请先启动 Nginx 再重试", lit "err.nginxNotServingDetail")
    ∷ (
      lit "服务未运行: Nginx（vhost 改动须经运行中的 Nginx 校验后才能落盘，请先启动 Nginx 再重试）",
      lit "err.nginxNotServingErr",
    )
    ∷ (lit "服务未安装，无法重建：{kind}/{version}", lit "err.rebuildNotInstalled")
    ∷ (lit "未注册的服务种类: {kind}", lit "err.unregisteredKind")
    ∷ (lit "未知服务种类: {kind}", lit "err.unknownKind")
    ∷ (lit "校验失败：容器 {name} 不存在", lit "err.verifyNoContainer")
    ∷ (lit "校准回写运行态失败 {kind}/{version}", lit "err.calibrateWriteback")
    ∷ (lit "运行态校验失败：{name} 期望 running={want}，实际 {got}", lit "err.stateVerify")
    ∷ (lit "{what}：端口 {port} 已被本机其它进程占用，Nginx 未重建（在跑的容器与站点均未改动）", lit "err.nginxPortBusyHost")
    ∷ (
      lit "{what}：端口 {port} 已被 {owner} 占用，{kind}/{version} 未重建（在跑的容器与数据均未改动）",
      lit "err.servicePortBusy",
    )
    ∷ (lit "扩展名不合法: {name}", lit "err.extInvalidName")
    ∷ (lit "扩展 {name} 安装失败，本次扩展集未应用", lit "err.extInstallFailed")
    ∷ (lit "扩展 {name} 停用失败，本次扩展集未应用", lit "err.extDisableFailed")
    ∷ (lit "扩展 {name} 安装失败（缺系统开发包 {pkgs}），本次扩展集未应用", lit "err.extInstallFailedDeps")
    ∷ (lit "扩展 {name} 停用失败（缺系统开发包 {pkgs}），本次扩展集未应用", lit "err.extDisableFailedDeps")
    ∷ (
      lit
          "phpo 不代装系统包：先在正在运行的这个 php 容器里装上上面这些包（Debian 基座 apt-get install -y、Alpine 基座 apk add），再点一次「应用并重建」——装进容器的那一份会随扩展镜像一起固化，下次不用再装。",
      lit "err.extSysPkgGuide",
    )
    ∷ (lit "容器内命令失败（退出码 {code}）", lit "err.execExit")
    ∷ (lit "读取 exec 输出失败", lit "err.execReadOutput")
    ∷ (lit "docker commit 失败", lit "err.commitFailed")
    ∷ (lit "docker exec 创建失败", lit "err.execCreate")
    ∷ (lit "docker exec attach 失败", lit "err.execAttach")
    ∷ (lit "docker exec inspect 失败", lit "err.execInspect")
    ∷ (lit "尚未准备好 Docker 客户端", lit "err.noDockerClient")
    ∷ (lit "列出 Docker 容器失败", lit "err.containerListFailed")
    ∷ (lit "网络 {name} 未配置网关", lit "err.networkNoGateway")
    ∷ (lit "版本不能为空", lit "err.versionEmpty")
    ∷ (lit "资源名称冲突：目标名被外部资源占用", lit "err.nameConflict")
    ∷ []
